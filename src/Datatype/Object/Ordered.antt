-- ===== src/Datatype/Object/Ordered.antt =====
-- The sorted set: its invariant, and what `zset_add` and `zset_remove` do to the scores.
use concurrent_cache.Prelude.{
  ◌≡◌, refl, ap, inl, inr, Bool, true, false, Option, none, some, List, [], ◌∷◌, arith,
  if◌then◌else◌, Bool-cases, not,
}
use concurrent_cache.Text.{Bytes, str_eq, str_eq_iff}
use concurrent_cache.Datatype.Double.{Double, double_eq}
use concurrent_cache.Datatype.Object.Members.{
  ZSetMember, member_lt, insert_member, score_of, score_differs, erase_member,
}
use concurrent_cache.Datatype.Object.MemberOrder.{
  IsNumber, member_lt_trans, member_lt_irrefl, member_lt_linear, member_lt_congr,
}

-- `x` stands before all of the members, and none has its text.
abbrev pub Heads : ZSetMember → List ZSetMember → Type 0
Heads x [] = Unit {0}
Heads x (y ∷ ys) = (member_lt x y ≡ true) × (str_eq y.member x.member ≡ false) × Heads x ys

-- Sorted by the comparison, each member once, every score a number.
abbrev pub IsOrdered : List ZSetMember → Type 0
IsOrdered [] = Unit {0}
IsOrdered (x ∷ xs) = IsNumber x × Heads x xs × IsOrdered xs

Heads-trans :
    (x y : ZSetMember) (zs : List ZSetMember)
    → IsNumber x
    → IsNumber y
    → member_lt x y ≡ true
    → score_of x.member zs ≡ none
    → Heads y zs
    → IsOrdered zs
    → Heads x zs
unfolding score_of
Heads-trans x y [] p q lt f h o = tt
Heads-trans x y (z ∷ zs) p q lt f h o = (
  member_lt_trans x y z p q o.0 lt h.0,
  ground arith,
  Heads-trans x y zs p q lt (ground arith) h.2 o.2,
)

Heads-insert_member :
    (x y : ZSetMember) (ys : List ZSetMember)
    → member_lt y x ≡ true
    → str_eq x.member y.member ≡ false
    → Heads y ys
    → Heads y (insert_member x ys).0
unfolding insert_member
Heads-insert_member x y [] lt ne h = (lt, ne, tt)
Heads-insert_member x y (z ∷ zs) lt ne h = ground (arith, Heads-insert_member x y zs)

-- A new member finds its place.
pub insert_member-IsOrdered :
    (x : ZSetMember) (zs : List ZSetMember)
    → IsNumber x
    → score_of x.member zs ≡ none
    → IsOrdered zs
    → IsOrdered (insert_member x zs).0 × ((insert_member x zs).1 ≡ true)
unfolding insert_member score_of
insert_member-IsOrdered x [] p f o = ((p, tt, tt), refl)
insert_member-IsOrdered x (z ∷ zs) p f o = ground (
  arith,
  str_eq_iff x.member z.member,
  str_eq_iff z.member x.member,
  member_lt_linear x z,
  Heads-trans x z zs,
  Heads-insert_member x z zs,
  insert_member-IsOrdered x zs,
)

pub score_of-insert_member :
    (x : ZSetMember) (zs : List ZSetMember) (m : Bytes)
    → IsNumber x
    → score_of x.member zs ≡ none
    → IsOrdered zs
    → score_of m (insert_member x zs).0
      ≡ (if str_eq x.member m then some x.score else score_of m zs)
unfolding insert_member score_of
score_of-insert_member x [] m p f o = refl
score_of-insert_member x (z ∷ zs) m p f o = ground (
  arith,
  str_eq_iff x.member z.member,
  str_eq_iff z.member x.member,
  str_eq_iff z.member m,
  str_eq_iff x.member m,
  member_lt_linear x z,
  score_of-insert_member x zs m,
)

-- The head of a sorted set stands before everything that is found behind it.
Heads-score_of :
    (y : ZSetMember) (zs : List ZSetMember) (m : Bytes) (s : Double)
    → Heads y zs
    → score_of m zs ≡ some s
    → (member_lt y (record { member = m; score = s }) ≡ true) × (str_eq y.member m ≡ false)
unfolding score_of
Heads-score_of y [] m s h f = cc
Heads-score_of y (z ∷ zs) m s h f = ground (
  arith,
  str_eq_iff z.member m,
  str_eq_iff z.member y.member,
  str_eq_iff y.member m,
  Heads-score_of y zs m s,
)

-- A member that is there under an equal score is left alone.
pub insert_member_present :
    (x : ZSetMember) (zs : List ZSetMember) (s : Double)
    → IsOrdered zs
    → score_of x.member zs ≡ some s
    → double_eq s x.score ≡ true
    → insert_member x zs ≡ (zs, false)
unfolding insert_member score_of
insert_member_present x [] s o f e = cc
insert_member_present x (z ∷ zs) s o f e = elim (Bool-cases (str_eq z.member x.member)) [
  | inl same ↦ here ((str_eq_iff z.member x.member).0 same) (rw same at f)
  | inr other ↦ ground (
    arith,
    Heads-score_of z zs x.member s,
    member_lt_congr (record { member = x.member; score = s }) x z,
    insert_member_present x zs s,
  )
]
  where
    here : z.member ≡ x.member → some z.score ≡ some s → insert_member x (z ∷ zs) ≡ (z ∷ zs, false)
    here m t = ground (arith, member_lt_congr z x z m, member_lt_irrefl z)

Heads-none : (x : ZSetMember) (zs : List ZSetMember) → Heads x zs → score_of x.member zs ≡ none
unfolding score_of
Heads-none x [] h = refl
Heads-none x (z ∷ zs) h = ground (arith, Heads-none x zs)

Heads-erase_member :
    (x : ZSetMember) (m : Bytes) (zs : List ZSetMember) → Heads x zs → Heads x (erase_member m zs)
unfolding erase_member
Heads-erase_member x m [] h = tt
Heads-erase_member x m (z ∷ zs) h = ground (arith, Heads-erase_member x m zs)

pub erase_member-IsOrdered :
    (m : Bytes) (zs : List ZSetMember) → IsOrdered zs → IsOrdered (erase_member m zs)
unfolding erase_member
erase_member-IsOrdered m [] o = tt
erase_member-IsOrdered m (z ∷ zs) o =
    ground (arith, Heads-erase_member z m zs, erase_member-IsOrdered m zs)

pub score_of-erase_member :
    (j m : Bytes) (zs : List ZSetMember)
    → IsOrdered zs
    → score_of j (erase_member m zs) ≡ (if str_eq m j then none else score_of j zs)
unfolding erase_member score_of
score_of-erase_member j m [] o = ground arith
score_of-erase_member j m (z ∷ zs) o = ground (
  arith,
  str_eq_iff z.member m,
  str_eq_iff z.member j,
  str_eq_iff m j,
  ap (λ k. score_of k zs) {x = z.member} {y = j},
  Heads-none z zs o.1,
  score_of-erase_member j m zs,
)

abbrev differs : Double → Option Double → Bool
differs s none = false
differs s (some t) = not (double_eq t s)

pub score_differs-score_of :
    (m : Bytes) (s : Double) (zs : List ZSetMember)
    → score_differs m s zs ≡ differs s (score_of m zs)
unfolding score_differs score_of
score_differs-score_of m s [] = refl
score_differs-score_of m s (z ∷ zs) = ground (arith, score_differs-score_of m s zs)
