-- ===== src/Cluster/Replication/Broadcast.antt =====
-- src/cluster/replication_mgr.cpp: what holding a command back and pushing it do to one of the objects.
use concurrent_cache.Prelude.{
  ℕ, zero, suc, ◌<◌, ◌≡◌, ◌≢◌, ◌⊎◌, refl, ap, ◌∙◌, false, List, [], ◌∷◌, ◌++◌, length,
  if◌then◌else◌, set, length-set, arith, inl, inr, Bool-cases,
}
use concurrent_cache.Text.{Bytes, str_eq, str_eq_refl}
use concurrent_cache.Cache.Storage.Lookup.{get_or-set}
use concurrent_cache.Cluster.Replication.Sync.{
  SyncState, ReplicaInfo, no_info, info_at, is_streaming, hold_back, hold_back_all, push_all,
  to_replica,
}

-- The messages of the outbox that go to a replica.
unfoldable pub received : Bytes → List (Bytes × Bytes) → List Bytes
received name [] = []
received name ((n, m) ∷ o) = if str_eq n name then m ∷ received name o else received name o

pub received-append :
    (name : Bytes) (o p : List (Bytes × Bytes))
    → received name (o ++ p) ≡ received name o ++ received name p
unfolding received
received-append name [] p = refl
received-append name ((n, m) ∷ o) p = elim (Bool-cases (str_eq n name)) [
  | inl e ↦ rw e (ap (λ ms. m ∷ ms) (received-append name o p))
  | inr e ↦ rw e (received-append name o p)
]

pub received-to_replica : (name : Bytes) (ms : List Bytes) → received name (to_replica name ms) ≡ ms
unfolding received
received-to_replica name [] = refl
received-to_replica name (m ∷ ms) =
    rw (str_eq_refl name) (ap (λ ms'. m ∷ ms') (received-to_replica name ms))

-- An address stands in a list not at all, or once; and no other replica of the list has the name.
abbrev pub Absent : ℕ → List ℕ → Type 0
Absent a [] = Unit {0}
Absent a (b ∷ bs) = (b ≢ a) × Absent a bs

abbrev pub Once : ℕ → List ℕ → Type 0
Once a [] = ⊥
Once a (b ∷ bs) = (b ≡ a) × Absent a bs ⊎ (b ≢ a) × Once a bs

abbrev pub Others : Bytes → ℕ → List ReplicaInfo → List ℕ → Type 0
Others name a infos [] = Unit {0}
Others name a infos (b ∷ bs) =
    ((b ≡ a) ⊎ (str_eq (info_at infos b).name name ≡ false)) × Others name a infos bs

-- Each object keeps its name, and all but that at `b` stay as they are.
pub name-set :
    (xs : List ReplicaInfo) (b c : ℕ) (i : ReplicaInfo)
    → i.name ≡ (info_at xs b).name
    → (info_at (set xs b i) c).name ≡ (info_at xs c).name
name-set [] b c i h = refl
name-set (x ∷ xs) zero zero i h = h
name-set (x ∷ xs) zero (suc c) i h = refl
name-set (x ∷ xs) (suc b) zero i h = refl
name-set (x ∷ xs) (suc b) (suc c) i h = name-set xs b c i h

pub info_at-set_ne :
    (xs : List ReplicaInfo) (b c : ℕ) (i : ReplicaInfo)
    → b ≢ c
    → info_at (set xs b i) c ≡ info_at xs c
info_at-set_ne [] b c i h = refl
info_at-set_ne (x ∷ xs) zero zero i h = absurd (h refl)
info_at-set_ne (x ∷ xs) zero (suc c) i h = refl
info_at-set_ne (x ∷ xs) (suc b) zero i h = refl
info_at-set_ne (x ∷ xs) (suc b) (suc c) i h = info_at-set_ne xs b c i (λ e. h (ap suc e))

pub info_at-set_self :
    (xs : List ReplicaInfo) (b : ℕ) (i : ReplicaInfo) → b < length xs → info_at (set xs b i) b ≡ i
info_at-set_self xs b i h = get_or-set xs b b i no_info h ∙ ground arith

pub Others-names :
    (name : Bytes) (a : ℕ) (xs ys : List ReplicaInfo) (bs : List ℕ)
    → ((c : ℕ) → (info_at ys c).name ≡ (info_at xs c).name)
    → Others name a xs bs
    → Others name a ys bs
Others-names name a xs ys [] same h = h
Others-names name a xs ys (b ∷ bs) same (inl e, h) = (inl e, Others-names name a xs ys bs same h)
Others-names name a xs ys (b ∷ bs) same (inr e, h) =
    (inr (ap (λ n. str_eq n name) (same b) ∙ e), Others-names name a xs ys bs same h)

pub hold_back_name : (command : Bytes) (i : ReplicaInfo) → (hold_back command i).name ≡ i.name
hold_back_name command i = ground arith

pub hold_back_all_name :
    (command : Bytes) (bs : List ℕ) (xs : List ReplicaInfo) (c : ℕ)
    → (info_at (hold_back_all command bs xs) c).name ≡ (info_at xs c).name
unfolding hold_back_all
hold_back_all_name command [] xs c = refl
hold_back_all_name command (b ∷ bs) xs c =
    hold_back_all_name command bs _ c ∙ name-set xs b c _ (hold_back_name command (info_at xs b))

pub length-hold_back_all :
    (command : Bytes) (bs : List ℕ) (xs : List ReplicaInfo)
    → length (hold_back_all command bs xs) ≡ length xs
unfolding hold_back_all
length-hold_back_all command [] xs = refl
length-hold_back_all command (b ∷ bs) xs = length-hold_back_all command bs _ ∙ length-set xs b _

pub hold_back_all-Absent :
    (command : Bytes) (a : ℕ) (bs : List ℕ) (xs : List ReplicaInfo)
    → Absent a bs
    → info_at (hold_back_all command bs xs) a ≡ info_at xs a
unfolding hold_back_all
hold_back_all-Absent command a [] xs h = refl
hold_back_all-Absent command a (b ∷ bs) xs (ne, h) =
    hold_back_all-Absent command a bs _ h ∙ info_at-set_ne xs b a _ ne

pub hold_back_all-Once :
    (command : Bytes) (a : ℕ) (bs : List ℕ) (xs : List ReplicaInfo)
    → a < length xs
    → Once a bs
    → info_at (hold_back_all command bs xs) a ≡ hold_back command (info_at xs a)
unfolding hold_back_all
hold_back_all-Once command a [] xs lt h = absurd h
hold_back_all-Once command a (b ∷ bs) xs lt (inl (e, h)) =
    hold_back_all-Absent command a bs _ h
    ∙ rw e (info_at-set_self xs a (hold_back command (info_at xs a)) lt)
hold_back_all-Once command a (b ∷ bs) xs lt (inr (ne, h)) =
    hold_back_all-Once command a bs _ (rw (length-set xs b (hold_back command (info_at xs b))) lt) h
    ∙ ap (hold_back command) (info_at-set_ne xs b a _ ne)

pub push_all-Absent :
    (name command : Bytes) (a : ℕ) (xs : List ReplicaInfo) (bs : List ℕ)
    → Absent a bs
    → Others name a xs bs
    → received name (push_all command xs bs) ≡ []
unfolding push_all received
push_all-Absent name command a xs [] h o = refl
push_all-Absent name command a xs (b ∷ bs) (ne, h) (inl e, o) = absurd (ne e)
push_all-Absent name command a xs (b ∷ bs) (ne, h) (inr e, o) =
    elim (Bool-cases (is_streaming (info_at xs b).sync_state)) [
      | inl on ↦ rw (on, e) (push_all-Absent name command a xs bs h o)
      | inr off ↦ rw off (push_all-Absent name command a xs bs h o)
    ]

abbrev pub pushed : SyncState → Bytes → List Bytes
pushed state command = if is_streaming state then command ∷ [] else []

pub push_all-Once :
    (name command : Bytes) (a : ℕ) (xs : List ReplicaInfo) (bs : List ℕ)
    → (info_at xs a).name ≡ name
    → Once a bs
    → Others name a xs bs
    → received name (push_all command xs bs) ≡ pushed (info_at xs a).sync_state command
unfolding push_all received
push_all-Once name command a xs [] own h o = absurd h
push_all-Once name command a xs (b ∷ bs) own (inl (e, h)) (_, o) =
    elim (Bool-cases (is_streaming (info_at xs a).sync_state)) [
      | inl on ↦
          rw (e, on, own, str_eq_refl name)
            (ap (λ ms. command ∷ ms) (push_all-Absent name command a xs bs h o))
      | inr off ↦ rw (e, off) (push_all-Absent name command a xs bs h o)
    ]
push_all-Once name command a xs (b ∷ bs) own (inr (ne, h)) (inl e, o) = absurd (ne e)
push_all-Once name command a xs (b ∷ bs) own (inr (ne, h)) (inr e, o) =
    elim (Bool-cases (is_streaming (info_at xs b).sync_state)) [
      | inl on ↦ rw (on, e) (push_all-Once name command a xs bs own h o)
      | inr off ↦ rw off (push_all-Once name command a xs bs own h o)
    ]
