-- ===== src/Datatype/Object/Scores.antt =====
-- `zset_add` and `zset_remove` as updates of a map from members to scores.
use concurrent_cache.Prelude.{
  ◌≡◌, ◌↔◌, refl, ◌∙◌, inl, inr, Bool, true, false, Option, none, some, List, arith, if◌then◌else◌,
  Bool-cases, not, ◌||◌, Option-cases,
}
use concurrent_cache.Text.{Bytes, str_eq, str_eq_iff, str_eq_refl}
use concurrent_cache.Datatype.Double.{Double, double_eq, is_nan}
use concurrent_cache.Datatype.Object.{CacheObject, zset}
use concurrent_cache.Datatype.Object.Members.{
  ZSetMember, insert_member, score_of, score_differs, erase_member,
}
use concurrent_cache.Datatype.Object.SortedSets.{zset_add, zset_remove, zset_score}
use concurrent_cache.Datatype.Object.Ordered.{
  IsOrdered, insert_member-IsOrdered, score_of-insert_member, insert_member_present,
  erase_member-IsOrdered, score_of-erase_member, score_differs-score_of,
}

-- The set and the answer of `zset_add`, once the object is a sorted set.
abbrev update : Bytes → Double → List ZSetMember → List ZSetMember × Bool
update m s zs =
    let score_changed = score_differs m s zs in
    let kept = if score_changed then erase_member m zs else zs in
    let (grown, inserted) = insert_member (record { member = m; score = s }) kept in
    (grown, inserted || score_changed)

double_eq_refl : (s : Double) → is_nan s ≡ false → double_eq s s ≡ true
unfolding double_eq
double_eq_refl s h = ground arith

-- The score that `m` has afterwards: a score that was equal already is kept.
abbrev pub settled : Double → Option Double → Double
settled s none = s
settled s (some t) = if double_eq t s then t else s

-- Whether the member is new or had another score.
abbrev pub changes : Double → Option Double → Bool
changes s none = true
changes s (some t) = not (double_eq t s)

-- What an update of a set does to the score of `j`, to the order, and what it answers.
abbrev Updated : Bytes → Double → Bytes → List ZSetMember → List ZSetMember × Bool → Type 0
Updated m s j zs r =
    IsOrdered r.0
    × (score_of j r.0 ≡ (if str_eq m j then some (settled s (score_of m zs)) else score_of j zs))
    × (r.1 ≡ changes s (score_of m zs))

module _ (m : Bytes) (s : Double) (j : Bytes) (zs : List ZSetMember) (number : is_nan s ≡ false)
    (o : IsOrdered zs) where
  x : ZSetMember
  x = record { member = m; score = s }

  added : score_of m zs ≡ none → Updated m s j zs (update m s zs)
  unfolding x
  added f =
      let (o', inserted) = insert_member-IsOrdered x zs number f o in
      ground (
        arith,
        o',
        inserted,
        score_differs-score_of m s zs,
        score_of-insert_member x zs j number f o,
      )

  kept :
      (t : Double)
      → score_of m zs ≡ some t
      → double_eq t s ≡ true
      → Updated m s j zs (update m s zs)
  unfolding x
  kept t f e =
      ground
        (arith, str_eq_iff m j, score_differs-score_of m s zs, insert_member_present x zs t o f e)

  gone : score_of m (erase_member m zs) ≡ none
  gone = score_of-erase_member m m zs o ∙ rw (str_eq_refl m)

  replaced :
      (t : Double)
      → score_of m zs ≡ some t
      → double_eq t s ≡ false
      → Updated m s j zs (update m s zs)
  unfolding x
  replaced t f e =
      let rest = erase_member m zs in
      let o-rest = erase_member-IsOrdered m zs o in
      let (o', inserted) = insert_member-IsOrdered x rest number gone o-rest in
      ground (
        arith,
        o',
        inserted,
        score_differs-score_of m s zs,
        score_of-erase_member j m zs o,
        score_of-insert_member x rest j number gone o-rest,
      )

  pub updated : Updated m s j zs (update m s zs)
  updated = elim (Option-cases (score_of m zs)) [
    | inl f ↦ added f
    | inr (t, f) ↦ elim (Bool-cases (double_eq t s)) [ inl e ↦ kept t f e | inr e ↦ replaced t f e ]
  ]

-- ZADD of a score that is not NaN, on a sorted set in order, keeps it in order, gives `m` a score
-- equal to `s`, leaves the score of every other member, and answers whether `m` is new or had
-- another score.
pub zset_add_lem :
    (o : CacheObject) (m j : Bytes) (s : Double)
    → o.type ≡ zset
    → is_nan s ≡ false
    → IsOrdered o.zset_val
    → let r = zset_add o m s in
      (r.0.type ≡ zset)
      × IsOrdered r.0.zset_val
      × (zset_score r.0 j
          ≡ (if str_eq m j then some (settled s (zset_score o m)) else zset_score o j))
      × (r.1 ≡ changes s (zset_score o m))
unfolding zset_add zset_score
zset_add_lem o m j s h number ordered =
    let u = updated m s j o.zset_val number ordered in rw h (refl, u.0, u.1, u.2)

-- ZREM on a sorted set in order keeps it in order, removes the score of `m` and of no other member,
-- and answers whether `m` was there.
pub zset_remove_lem :
    (o : CacheObject) (m j : Bytes)
    → o.type ≡ zset
    → IsOrdered o.zset_val
    → let r = zset_remove o m in
      (r.0.type ≡ zset)
      × IsOrdered r.0.zset_val
      × (zset_score r.0 j ≡ (if str_eq m j then none else zset_score o j))
      × ((r.1 ≡ false) ↔ (zset_score o m ≡ none))
unfolding zset_remove zset_score
zset_remove_lem o m j h ordered = ground (
  arith,
  str_eq_iff m j,
  erase_member-IsOrdered m o.zset_val ordered,
  score_of-erase_member j m o.zset_val ordered,
)
