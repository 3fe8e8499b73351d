-- ===== src/Datatype/Object/Ranges.antt =====
-- What LRANGE and ZRANGE return: which positions an index expression selects.
use Prim.Native.Nat.{max}
use concurrent_cache.Prelude.{
  ℕ, suc, ◌+◌, ◌-◌, ◌<◌, ◌≡◌, refl, sym, ap, ◌∙◌, ◌↔◌, Bool, true, false, ◌&&◌, Option, none, some,
  List, [], ◌∷◌, arith, leb, ◌==◌, if◌then◌else◌, length, take, drop, ℤ, pos, negsuc, ◌≤ℤ◌, leb_ℤ,
  pick, pick_congr, pick_none, slice-pick, ◌+ℤ◌,
}
use concurrent_cache.Base.RangeClip.{
  clip_range, clip_range_iff, clip_range_bounds, index_at, Selects,
}
use concurrent_cache.Datatype.Object.{CacheObject, list, zset}
use concurrent_cache.Datatype.Object.Lists.{in_range, actual, list_range}
use concurrent_cache.Datatype.Object.Members.{pairs, ZSetMember}
use concurrent_cache.Datatype.Object.SortedSets.{zset_range_by_index}

-- The position `j` lies between two indices.
abbrev pub between : ℤ → ℤ → ℕ → Bool
between lo hi j = leb_ℤ lo (pos j) && leb_ℤ (pos j) hi

module _ {ℓ} {A : Type ℓ} (xs : List A) where
  take-drop_congr : (n m d e : ℕ) → n ≡ m → d ≡ e → take n (drop d xs) ≡ take m (drop e xs)
  take-drop_congr n m d e p q = rw (p, q)

  in_range-pick :
      (p : ℕ → Bool) (r : Option (ℤ × ℤ))
      → ((from to : ℤ) → r ≡ some (from, to) → (pos 0 ≤ℤ from) × (from ≤ℤ to))
      → ((j : ℕ) → j < length xs → Selects r j ↔ (p j ≡ true))
      → in_range xs r ≡ pick p 0 xs
  in_range-pick p none low h = sym (pick_none p 0 xs (λ j le lt. ground (arith, h j)))
  in_range-pick p (some (negsuc a, to)) low h = absurd (ground (arith, low (negsuc a) to refl))
  in_range-pick p (some (pos a, negsuc b)) low h =
      absurd (ground (arith, low (pos a) (negsuc b) refl))
  in_range-pick p (some (pos a, pos b)) low h =
      take-drop_congr _ _ _ _ (omega arith) (omega arith)
      ∙ slice-pick a b 0 xs
      ∙ pick_congr (λ j. leb a j && leb j b) p 0 xs (λ j le lt. ground (arith, h j))

  clipped :
      (start stop : ℤ)
      → in_range xs (clip_range (length xs) start stop)
        ≡ pick (between (index_at (length xs) start) (index_at (length xs) stop)) 0 xs
  clipped start stop =
      in_range-pick (between (index_at (length xs) start) (index_at (length xs) stop))
        (clip_range (length xs) start stop)
        (λ from to e. let b = clip_range_bounds (length xs) start stop from to e in (b.0, b.1))
        (λ j lt. ground (arith, clip_range_iff (length xs) start stop j))

suc_eq_zero : (n : ℕ) → (suc n == 0) ≡ false
suc_eq_zero n = ground arith

-- The common part of the two range operations: an empty sequence has an empty range.
unless_empty {ℓ} :
    {A : Type ℓ} (xs : List A) (start stop : ℤ)
    → (if length xs == 0 then [] else in_range xs (clip_range (length xs) start stop))
      ≡ pick (between (index_at (length xs) start) (index_at (length xs) stop)) 0 xs
unless_empty [] start stop = refl
unless_empty (x ∷ xs) start stop = rw (suc_eq_zero (length xs)) (clipped (x ∷ xs) start stop)

-- LRANGE on a list returns, in order, the elements at the positions between the two indices, each
-- index being resolved against the length twice.
pub list_range-pick :
    (o : CacheObject) (start stop : ℤ)
    → o.type ≡ list
    → let size = length o.list_val in
      list_range o start stop
      ≡ pick
          (between (index_at size (actual size start)) (index_at size (actual size stop)))
          0
          o.list_val
unfolding list_range
list_range-pick o start stop h = rw h (unless_empty o.list_val _ _)

-- An index that is not further before the front than the length points where it should.
resolved :
    (size : ℕ) (i : ℤ) → pos 0 ≤ℤ index_at size i → index_at size (actual size i) ≡ index_at size i
unfolding ◌+ℤ◌
resolved size (pos n) h = ground arith
resolved size (negsuc n) h = ground arith

-- With both indices at or behind the front, LRANGE on a list returns exactly the elements at the
-- positions from `start` to `stop`, negative indices counting from the end.
pub list_range-between :
    (o : CacheObject) (start stop : ℤ)
    → o.type ≡ list
    → pos 0 ≤ℤ index_at (length o.list_val) start
    → pos 0 ≤ℤ index_at (length o.list_val) stop
    → list_range o start stop
      ≡ pick
          (between (index_at (length o.list_val) start) (index_at (length o.list_val) stop))
          0
          o.list_val
list_range-between o start stop h low high =
    let size = length o.list_val in
    list_range-pick o start stop h
    ∙ ap (λ a. pick (between a (index_at size (actual size stop))) 0 o.list_val)
        (resolved size start low)
    ∙ ap (λ b. pick (between (index_at size start) b) 0 o.list_val) (resolved size stop high)

-- The positions up to `k`.
pick_prefix {ℓ} :
    {A : Type ℓ} (xs : List A) (hi : ℕ) → pick (between (pos 0) (pos hi)) 0 xs ≡ take (suc hi) xs
pick_prefix xs hi =
    pick_congr (between (pos 0) (pos hi)) (λ j. leb 0 j && leb j hi) 0 xs (λ j le lt. ground arith)
    ∙ sym (slice-pick 0 hi 0 xs)
    ∙ take-drop_congr xs (hi + 1 - max 0 0) (suc hi) 0 0 (omega arith) refl

wrapped :
    (size k : ℕ) → k < size → index_at size (actual size (negsuc (size + k))) ≡ pos (size - k - 1)
unfolding ◌+ℤ◌
wrapped size k h = ground arith

-- With a `stop` that lies before the front by k + 1 places, where k is below the length, LRANGE
-- from 0 on a list returns its first `length - k` elements, and not the empty list.
pub list_range_past_front :
    (o : CacheObject) (k : ℕ)
    → o.type ≡ list
    → k < length o.list_val
    → list_range o (pos 0) (negsuc (length o.list_val + k))
      ≡ take (length o.list_val - k) o.list_val
list_range_past_front o k h lt =
    let size = length o.list_val in
    list_range-pick o (pos 0) (negsuc (size + k)) h
    ∙ ap (λ b. pick (between (pos 0) b) 0 o.list_val) (wrapped size k lt)
    ∙ pick_prefix o.list_val (size - k - 1)
    ∙ ap (λ n. take n o.list_val) {x = suc (size - k - 1)} (omega arith)

length-pairs : (zs : List ZSetMember) → length (pairs zs) ≡ length zs
length-pairs [] = refl
length-pairs (z ∷ zs) = ap suc (length-pairs zs)

-- ZRANGE selects positions of the order of the set as LRANGE selects those of the list.
pub zset_range_by_index-pick :
    (o : CacheObject) (start stop : ℤ)
    → o.type ≡ zset
    → let size = length o.zset_val in
      zset_range_by_index o start stop
      ≡ pick
          (between (index_at size (actual size start)) (index_at size (actual size stop)))
          0
          (pairs o.zset_val)
unfolding zset_range_by_index
zset_range_by_index-pick o start stop h =
    rw (h, ← length-pairs o.zset_val) (unless_empty (pairs o.zset_val) _ _)
