-- ===== src/Base/RangeClip.antt =====
-- src/base/range_clip.h: clipping of start..stop indices.
use concurrent_cache.Prelude.{
  ℕ, ◌<◌, ◌≡◌, Option, none, some, arith, ℤ, pos, negsuc, ◌+ℤ◌, ◌-ℤ◌, ◌↔◌, ltb_ℤ, leb_ℤ, ◌≤ℤ◌,
  if◌then◌else◌, ◌==◌,
}

-- `none` is the result `false`, `some (out_start, out_stop)` the result `true`.
unfoldable pub clip_range : ℕ → ℤ → ℤ → Option (ℤ × ℤ)
unfolding ◌+ℤ◌ ◌-ℤ◌
clip_range size start stop =
    if size == 0
    then none
    else (let len = pos size in
        let actual_start = if ltb_ℤ start (pos 0) then len +ℤ start else start in
        let actual_stop = if ltb_ℤ stop (pos 0) then len +ℤ stop else stop in
        let from = if ltb_ℤ actual_start (pos 0) then pos 0 else actual_start in
        if ltb_ℤ actual_stop (pos 0)
        then none
        else if leb_ℤ len from
        then none
        else (let to = if leb_ℤ len actual_stop then len -ℤ pos 1 else actual_stop in
            if ltb_ℤ to from then none else some (from, to)))

-- Where an index points: a negative one counts from the end.
abbrev pub index_at : ℕ → ℤ → ℤ
index_at size i = if ltb_ℤ i (pos 0) then pos size +ℤ i else i

abbrev pub Selects : Option (ℤ × ℤ) → ℕ → Type 0
Selects none i = ⊥
Selects (some (a, b)) i = (a ≤ℤ pos i) × (pos i ≤ℤ b)

-- What `index_at` yields, in numbers.
clip_range-Selects :
    (size : ℕ) (start stop : ℤ) (i : ℕ)
    → Selects (clip_range size start stop) i
    → (i < size) × (index_at size start ≤ℤ pos i) × (pos i ≤ℤ index_at size stop)
unfolding clip_range ◌+ℤ◌ ◌-ℤ◌
clip_range-Selects size (pos a) (pos b) i h = ground arith
clip_range-Selects size (pos a) (negsuc b) i h = ground arith
clip_range-Selects size (negsuc a) (pos b) i h = ground arith
clip_range-Selects size (negsuc a) (negsuc b) i h = ground arith

Selects-clip_range :
    (size : ℕ) (start stop : ℤ) (i : ℕ)
    → i < size
    → index_at size start ≤ℤ pos i
    → pos i ≤ℤ index_at size stop
    → Selects (clip_range size start stop) i
unfolding clip_range ◌+ℤ◌ ◌-ℤ◌
Selects-clip_range size (pos a) (pos b) i h k l = ground arith
Selects-clip_range size (pos a) (negsuc b) i h k l = ground arith
Selects-clip_range size (negsuc a) (pos b) i h k l = ground arith
Selects-clip_range size (negsuc a) (negsuc b) i h k l = ground arith

-- A position is selected exactly when it lies in the sequence and between the two indices, a
-- negative index counting from the end.
pub clip_range_iff :
    (size : ℕ) (start stop : ℤ) (i : ℕ)
    → Selects (clip_range size start stop) i
      ↔ ((i < size) × (index_at size start ≤ℤ pos i) × (pos i ≤ℤ index_at size stop))
clip_range_iff size start stop i =
    (clip_range-Selects size start stop i, λ h. Selects-clip_range size start stop i h.0 h.1 h.2)

-- A range that is not empty lies within the sequence, in order.
pub clip_range_bounds :
    (size : ℕ) (start stop from to : ℤ)
    → clip_range size start stop ≡ some (from, to)
    → (pos 0 ≤ℤ from) × (from ≤ℤ to) × (to +ℤ pos 1 ≤ℤ pos size)
unfolding clip_range ◌+ℤ◌ ◌-ℤ◌
clip_range_bounds size (pos a) (pos b) from to h = ground arith
clip_range_bounds size (pos a) (negsuc b) from to h = ground arith
clip_range_bounds size (negsuc a) (pos b) from to h = ground arith
clip_range_bounds size (negsuc a) (negsuc b) from to h = ground arith
