-- ===== src/Base/IntParse.antt =====
-- src/base/int_parse.h: strict parsing of a signed 64-bit integer.
use native.Mathlib.Nat.{pow-suc}
use concurrent_cache.Prelude.{
  ℕ, zero, suc, ◌+◌, ◌-◌, ◌*◌, ◌^◌, ◌≤◌, ◌≡◌, refl, ◌≢◌, inl, inr, Bool, true, false, ◌&&◌, Option,
  none, some, [], ◌∷◌, arith, ◌==◌, ltb, leb, if◌then◌else◌, length, ℤ, pos, negsuc, ◌≤ℤ◌, ap,
  append-nil, Bool-cases, ◌∙◌,
}
use concurrent_cache.Text.{Bytes}
use concurrent_cache.Text.Decimal.{
  is_digit, scan, starts_with_digit, from_chars_ll, whole, to_string, to_string_ℤ, scan-to_string,
  starts_with_digit-to_string, from_chars_magnitude, negate, parsed,
}

-- `none` is the result `false`.
unfoldable pub parse_ll_strict : Bytes → Option ℤ
unfolding from_chars_ll whole
parse_ll_strict [] = none
parse_ll_strict (c ∷ s) = whole (from_chars_ll (c ∷ s))

-- The values of a long long.
abbrev pub FitsInt64 : ℤ → Type 0
FitsInt64 v = (negsuc (2 ^ 63 - 1) ≤ℤ v) × (v ≤ℤ pos (2 ^ 63 - 1))

abbrev pub fits_int64 : ℤ → Bool
fits_int64 (pos n) = ltb n (2 ^ 63)
fits_int64 (negsuc n) = ltb n (2 ^ 63)

-- The grammar, and the value by place: an optional minus sign and one or more digits.
abbrev all_digits : Bytes → Bool
all_digits [] = true
all_digits (c ∷ s) = is_digit c && all_digits s

abbrev place_value : Bytes → ℕ
place_value [] = 0
place_value (c ∷ s) = (c - b'0') * 10 ^ length s + place_value s

abbrev magnitude : Bytes → Option ℕ
magnitude [] = none
magnitude (c ∷ s) = if all_digits (c ∷ s) then some (place_value (c ∷ s)) else none

abbrev pub fitting : Option ℤ → Option ℤ
fitting none = none
fitting (some v) = if fits_int64 v then some v else none

abbrev map_sign : (ℕ → ℤ) → Option ℕ → Option ℤ
map_sign f none = none
map_sign f (some n) = some (f n)

-- The integer that a text denotes, if it denotes one.
abbrev pub denotes : Bytes → Option ℤ
denotes [] = none
denotes (c ∷ s) =
    if c == b'-' then map_sign negate (magnitude s) else map_sign pos (magnitude (c ∷ s))

scan_digits :
    (s : Bytes) (acc : ℕ)
    → all_digits s ≡ true
    → scan s acc ≡ (acc * 10 ^ length s + place_value s, [])
unfolding scan
scan_digits [] acc h = ground arith
scan_digits (c ∷ s) acc h = ground (
  arith,
  scan_digits s (acc * 10 + (c - b'0')),
  pow-suc 10 (length s),
  ap (λ (t : ℕ). acc * t) (pow-suc 10 (length s)),
)

scan_rest : (s : Bytes) (acc : ℕ) → all_digits s ≡ false → (scan s acc).1 ≢ []
unfolding scan
scan_rest [] acc h = cc
scan_rest (c ∷ s) acc h = ground (arith, scan_rest s (acc * 10 + (c - b'0')))

abbrev bounded : ℕ → (ℕ → ℤ) → Option ℕ → Option ℤ
bounded bound sign none = none
bounded bound sign (some n) = if leb n bound then some (sign n) else none

whole-cons : (v : ℤ) (rest : Bytes) → rest ≢ [] → whole (parsed v rest) ≡ none
unfolding whole
whole-cons v [] h = absurd (h refl)
whole-cons v (c ∷ rest) h = refl

whole-magnitude :
    (bound : ℕ) (sign : ℕ → ℤ) (s : Bytes)
    → whole (from_chars_magnitude bound sign s) ≡ bounded bound sign (magnitude s)
unfolding whole from_chars_magnitude
whole-magnitude bound sign [] = refl
whole-magnitude bound sign (c ∷ s) = elim (Bool-cases (all_digits (c ∷ s))) [
  | inl all ↦ rw (scan_digits (c ∷ s) 0 all) (ground arith)
  | inr some_not ↦
      ground (
        arith,
        scan_rest (c ∷ s) 0 some_not,
        whole-cons (sign (scan (c ∷ s) 0).0) (scan (c ∷ s) 0).1,
      )
]

bounded-negate : (m : Option ℕ) → bounded (2 ^ 63) negate m ≡ fitting (map_sign negate m)
bounded-negate none = refl
bounded-negate (some zero) = refl
bounded-negate (some (suc n)) = ground arith

bounded-pos : (m : Option ℕ) → bounded (2 ^ 63 - 1) pos m ≡ fitting (map_sign pos m)
bounded-pos none = refl
bounded-pos (some n) = ground arith

-- The parser accepts exactly the texts of the grammar whose value is a long long, and returns
-- that value.
pub parse_ll_strict-denotes : (s : Bytes) → parse_ll_strict s ≡ fitting (denotes s)
unfolding parse_ll_strict
parse_ll_strict-denotes [] = refl
parse_ll_strict-denotes (c ∷ s) = elim (Bool-cases (c == b'-')) [
  | inl minus ↦ rw minus (whole-magnitude (2 ^ 63) negate s ∙ bounded-negate (magnitude s))
  | inr plain ↦
      rw plain (whole-magnitude (2 ^ 63 - 1) pos (c ∷ s) ∙ bounded-pos (magnitude (c ∷ s)))
]

whole-parsed : (v : ℤ) → whole (parsed v []) ≡ some v
unfolding whole
whole-parsed v = refl

-- The print of a natural number begins with a digit, so it is not empty and has no sign.
from_chars_ll-digit :
    (s : Bytes)
    → starts_with_digit s ≡ true
    → parse_ll_strict s ≡ whole (from_chars_magnitude (2 ^ 63 - 1) pos s)
unfolding parse_ll_strict
from_chars_ll-digit [] h = cc
from_chars_ll-digit (c ∷ s) h = ground arith

from_chars_magnitude-to_string :
    (bound : ℕ) (sign : ℕ → ℤ) (n : ℕ)
    → n ≤ bound
    → whole (from_chars_magnitude bound sign (to_string n)) ≡ some (sign n)
unfolding from_chars_magnitude whole
from_chars_magnitude-to_string bound sign n h =
    let printed = append-nil (to_string n) in
    ground (
      arith,
      printed,
      ap starts_with_digit printed,
      ap (λ (t : Bytes). scan t 0) printed,
      starts_with_digit-to_string n [],
      scan-to_string n [] refl,
    )

-- Every long long is read back from its print.
pub parse_ll_strict-to_string : (v : ℤ) → FitsInt64 v → parse_ll_strict (to_string_ℤ v) ≡ some v
unfolding to_string_ℤ
parse_ll_strict-to_string (pos n) h =
    from_chars_ll-digit (to_string n)
      (rw (append-nil (to_string n)) at (starts_with_digit-to_string n []))
    ∙ from_chars_magnitude-to_string (2 ^ 63 - 1) pos n (omega arith)
parse_ll_strict-to_string (negsuc n) h =
    unfold parse_ll_strict in from_chars_magnitude-to_string (2 ^ 63) negate (suc n) (omega arith)
