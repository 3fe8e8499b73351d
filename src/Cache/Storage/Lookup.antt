-- ===== src/Cache/Storage/Lookup.antt =====
-- The shards seen as one map from keys to entries, and the well-formedness of a store.
use concurrent_cache.Prelude.{
  ℕ, zero, suc, ◌+◌, ◌<◌, ◌≡◌, refl, sym, ap, ◌∙◌, ◌⊎◌, inr, Bool, true, false, none, some, List,
  [], ◌∷◌, arith, if◌then◌else◌, ◌==◌, length, get_or, set, length-set, replicate, length-replicate,
}
use mathlib.Core.Path.{subst}
use concurrent_cache.Text.{Bytes, str_eq, str_eq_iff}
use concurrent_cache.Table.{
  Table, find, insert_or_assign, erase, find-insert_or_assign, find-erase, IsDistinct,
  insert_or_assign-IsDistinct, erase-IsDistinct,
}
use concurrent_cache.Cache.Storage.{
  Setting, CacheEntry, Storage, shard, put_shard, get_shard_index, entry_of, insert_entry,
  erase_entry, num_shards, new_storage, total_size,
}

module _ {ℓ} {A : Type ℓ} where
  pub get_or-set :
      (xs : List A) (i j : ℕ) (v d : A)
      → i < length xs
      → get_or (set xs i v) j d ≡ (if i == j then v else get_or xs j d)
  get_or-set [] i j v d h = absurd (omega arith)
  get_or-set (x ∷ xs) zero zero v d h = refl
  get_or-set (x ∷ xs) zero (suc j) v d h = ground arith
  get_or-set (x ∷ xs) (suc i) zero v d h = ground arith
  get_or-set (x ∷ xs) (suc i) (suc j) v d h = ground (arith, get_or-set xs i j v d (omega arith))

  get_or-replicate : (n i : ℕ) (d : A) → get_or (replicate n d) i d ≡ d
  get_or-replicate zero i d = refl
  get_or-replicate (suc n) zero d = refl
  get_or-replicate (suc n) (suc i) d = get_or-replicate n i d

if-IsDistinct :
    (b : Bool) (t u : Table CacheEntry)
    → IsDistinct t
    → IsDistinct u
    → IsDistinct (if b then t else u)
if-IsDistinct true t u d e = d
if-IsDistinct false t u d e = e

pub total_size-set :
    (ts : List (Table CacheEntry)) (i : ℕ) (t : Table CacheEntry)
    → i < length ts
    → total_size (set ts i t) + length (get_or ts i []) ≡ total_size ts + length t
unfolding total_size
total_size-set [] i t h = absurd (omega arith)
total_size-set (u ∷ ts) zero t h = omega arith
total_size-set (u ∷ ts) (suc i) t h = omega (arith, total_size-set ts i t (omega arith))

module _ (env : Setting) where
  pub get_shard_index-lt : (key : Bytes) → get_shard_index env key < num_shards
  unfolding get_shard_index
  get_shard_index-lt key = omega arith

  -- Every key stands in the shard that its hash names, once.
  pub record WellFormed (ts : List (Table CacheEntry)) : Type 0 where
    pub shards : length ts ≡ num_shards
    pub placed :
        (i : ℕ) (j : Bytes) → (get_shard_index env j ≡ i) ⊎ (find j (get_or ts i []) ≡ none)
    pub distinct : (i : ℕ) → IsDistinct (get_or ts i [])

  pub new_storage-WellFormed : (seed : ℕ) → WellFormed (new_storage seed).stores
  unfolding new_storage find
  new_storage-WellFormed seed = record {
    shards = length-replicate {A = Table CacheEntry} num_shards [];
    placed = λ i j. inr (ap (find j) (get_or-replicate num_shards i []));
    distinct = λ i. subst IsDistinct (sym (get_or-replicate num_shards i [])) tt;
  }

  module _ (s : Storage) (w : WellFormed s.stores) where
    in_shards : (key : Bytes) → get_shard_index env key < length s.stores
    in_shards key = omega (arith, get_shard_index-lt key, w.shards)

    pub entry_of-insert_entry :
        (key j : Bytes) (e : CacheEntry)
        → entry_of env (insert_entry env s key e) j
          ≡ (if str_eq key j then some e else entry_of env s j)
    entry_of-insert_entry key j e =
        let i = get_shard_index env key in
        let t = insert_or_assign key e (shard s i) in
        ap (find j) (get_or-set s.stores i (get_shard_index env j) t [] (in_shards key))
        ∙ ground (arith, str_eq_iff key j, find-insert_or_assign j key e (shard s i))

    pub entry_of-erase_entry :
        (key j : Bytes)
        → entry_of env (erase_entry env s key) j ≡ (if str_eq key j then none else entry_of env s j)
    entry_of-erase_entry key j =
        let i = get_shard_index env key in
        ap (find j)
          (get_or-set s.stores i (get_shard_index env j) (erase key (shard s i)) [] (in_shards key))
        ∙ ground (arith, str_eq_iff key j, find-erase j key (shard s i))

    put_shard-WellFormed :
        (i : ℕ) (t : Table CacheEntry)
        → i < length s.stores
        → ((j : Bytes) → (get_shard_index env j ≡ i) ⊎ (find j t ≡ none))
        → IsDistinct t
        → WellFormed (put_shard s i t).stores
    put_shard-WellFormed i t h p d = record {
      shards = length-set s.stores i t ∙ w.shards;
      placed = λ k j. rw (get_or-set s.stores i k t [] h) (ground (arith, p j, w.placed k j));
      distinct = λ k.
          subst IsDistinct (sym (get_or-set s.stores i k t [] h))
            (if-IsDistinct (i == k) t (shard s k) d (w.distinct k));
    }

    pub insert_entry-WellFormed :
        (key : Bytes) (e : CacheEntry) → WellFormed (insert_entry env s key e).stores
    insert_entry-WellFormed key e =
        let i = get_shard_index env key in
        put_shard-WellFormed i (insert_or_assign key e (shard s i)) (in_shards key)
          (λ j.
            ground
              (arith, str_eq_iff key j, find-insert_or_assign j key e (shard s i), w.placed i j))
          (insert_or_assign-IsDistinct key e (shard s i) (w.distinct i))

    pub erase_at-WellFormed :
        (i : ℕ) (key : Bytes)
        → i < length s.stores
        → WellFormed (put_shard s i (erase key (shard s i))).stores
    erase_at-WellFormed i key h =
        put_shard-WellFormed i (erase key (shard s i)) h
          (λ j. ground (arith, find-erase j key (shard s i), w.placed i j))
          (erase-IsDistinct key (shard s i) (w.distinct i))

    pub erase_entry-WellFormed : (key : Bytes) → WellFormed (erase_entry env s key).stores
    erase_entry-WellFormed key = erase_at-WellFormed (get_shard_index env key) key (in_shards key)
