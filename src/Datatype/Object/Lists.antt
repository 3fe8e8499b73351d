-- ===== src/Datatype/Object/Lists.antt =====
-- src/datatype/object.cpp: the list operations of `CacheObject`.
use concurrent_cache.Prelude.{
  ℕ, ◌+◌, ◌-◌, Bool, true, false, Option, none, some, List, [], ◌∷◌, ◌++◌, if◌then◌else◌, length,
  take, drop, ◌==◌, ◌&&◌, not, ℤ, pos, pos_part, ◌+ℤ◌, ltb_ℤ,
}
use concurrent_cache.Text.{Bytes}
use concurrent_cache.Base.RangeClip.{clip_range}
use concurrent_cache.Datatype.Object.{CacheObject, string, list, is_type, discard_string_payload}

-- A string becomes a list: its text, unless empty, is the first element.
adopt_as_list : CacheObject → CacheObject
unfolding discard_string_payload
adopt_as_list o =
    let old_val = o.string_val in
    let emptied = record (discard_string_payload o) { type = list; list_val = [] } in
    if length old_val == 0 then emptied else record emptied { list_val = old_val ∷ [] }

unfoldable pub list_push : CacheObject → Bytes → Bool → CacheObject × Bool
unfolding adopt_as_list
list_push o val front =
    if not (is_type o.type list) && not (is_type o.type string)
    then (o, false)
    else (let o' = if is_type o.type string then adopt_as_list o else o in
        (
          record o' { list_val = if front then val ∷ o'.list_val else o'.list_val ++ val ∷ [] },
          true,
        ))

-- The last element, and the elements before it.
unfoldable pub back_of : Bytes → List Bytes → Bytes
back_of x [] = x
back_of x (y ∷ ys) = back_of y ys

unfoldable pub front_part : Bytes → List Bytes → List Bytes
front_part x [] = []
front_part x (y ∷ ys) = x ∷ front_part y ys

unfoldable pub pop_from : List Bytes → CacheObject → Bool → CacheObject × Option Bytes
pop_from [] o front = (o, none)
pop_from (x ∷ xs) o front =
    if front
    then (record o { list_val = xs }, some x)
    else (record o { list_val = front_part x xs }, some (back_of x xs))

unfoldable pub list_pop : CacheObject → Bool → CacheObject × Option Bytes
unfolding pop_from back_of front_part
list_pop o front = if not (is_type o.type list) then (o, none) else pop_from o.list_val o front

-- `vector(begin() + from, begin() + to + 1)`
abbrev closed_range {ℓ} : {A : Type ℓ} → List A → ℤ → ℤ → List A
closed_range xs from to = take (pos_part to + 1 - pos_part from) (drop (pos_part from) xs)

abbrev pub in_range {ℓ} : {A : Type ℓ} → List A → Option (ℤ × ℤ) → List A
in_range xs none = []
in_range xs (some (from, to)) = closed_range xs from to

-- The index is turned into a position here, before `clip_range` does the same.
abbrev pub actual : ℕ → ℤ → ℤ
actual size i = if ltb_ℤ i (pos 0) then pos size +ℤ i else i

unfoldable pub list_range : CacheObject → ℤ → ℤ → List Bytes
list_range o start stop =
    let size = length o.list_val in
    if not (is_type o.type list)
    then []
    else if size == 0
    then []
    else in_range o.list_val (clip_range size (actual size start) (actual size stop))

unfoldable pub list_size : CacheObject → ℕ
list_size o = length o.list_val
