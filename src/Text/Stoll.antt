-- ===== src/Text/Stoll.antt =====
-- `std::stoll` in base 10: blanks, a sign, digits. `none` is an exception; with the value stands the
-- text from `idx` on.
use concurrent_cache.Prelude.{
  ℕ, suc, ◌-◌, ◌^◌, ◌≤◌, ◌≡◌, refl, Bool, true, false, ◌||◌, ◌&&◌, Option, none, some, [], ◌∷◌,
  ◌++◌, arith, ◌==◌, leb, if◌then◌else◌, ℤ, pos, negsuc,
}
use concurrent_cache.Text.{Bytes}
use concurrent_cache.Text.Decimal.{
  scan, starts_with_digit, negate, to_string, to_string_ℤ, scan-to_string,
  starts_with_digit-to_string,
}
use concurrent_cache.Base.IntParse.{FitsInt64}

-- `isspace` in the "C" locale.
abbrev pub is_space : ℕ → Bool
is_space c = c == b' ' || leb 9 c && leb c 13

unfoldable pub skip_space : Bytes → Bytes
skip_space [] = []
skip_space (c ∷ s) = let rest = skip_space s in if is_space c then rest else c ∷ s

-- The digits after the sign, at least one and in range.
unfoldable pub signed_digits : ℕ → (ℕ → ℤ) → Bytes → Option (ℤ × Bytes)
signed_digits bound sign s =
    if starts_with_digit s
    then (let (v, rest) = scan s 0 in if leb v bound then some (sign v, rest) else none)
    else none

unfoldable pub after_space : Bytes → Option (ℤ × Bytes)
after_space [] = none
after_space (c ∷ s) =
    if c == b'-'
    then signed_digits (2 ^ 63) negate s
    else if c == b'+'
    then signed_digits (2 ^ 63 - 1) pos s
    else signed_digits (2 ^ 63 - 1) pos (c ∷ s)

unfoldable pub stoll : Bytes → Option (ℤ × Bytes)
stoll s = after_space (skip_space s)

skip_space-digit : (s : Bytes) → starts_with_digit s ≡ true → skip_space s ≡ s
unfolding skip_space
skip_space-digit [] h = refl
skip_space-digit (c ∷ s) h = ground arith

after_space-digit :
    (s : Bytes) → starts_with_digit s ≡ true → after_space s ≡ signed_digits (2 ^ 63 - 1) pos s
unfolding after_space
after_space-digit [] h = ground arith
after_space-digit (c ∷ s) h = ground arith

signed_digits-to_string :
    (bound : ℕ) (sign : ℕ → ℤ) (n : ℕ) (rest : Bytes)
    → n ≤ bound
    → starts_with_digit rest ≡ false
    → signed_digits bound sign (to_string n ++ rest) ≡ some (sign n, rest)
unfolding signed_digits
signed_digits-to_string bound sign n rest le h =
    rw (starts_with_digit-to_string n rest, scan-to_string n rest h) (ground arith)

-- The print of a long long is read back, and what stands behind it is left.
pub stoll-to_string_ℤ :
    (v : ℤ) (rest : Bytes)
    → FitsInt64 v
    → starts_with_digit rest ≡ false
    → stoll (to_string_ℤ v ++ rest) ≡ some (v, rest)
unfolding stoll to_string_ℤ
stoll-to_string_ℤ (pos n) rest fits h =
    rw
      (
        skip_space-digit (to_string n ++ rest) (starts_with_digit-to_string n rest),
        after_space-digit (to_string n ++ rest) (starts_with_digit-to_string n rest),
      )
      (signed_digits-to_string (2 ^ 63 - 1) pos n rest (omega arith) h)
stoll-to_string_ℤ (negsuc n) rest fits h =
    unfold skip_space after_space in
    signed_digits-to_string (2 ^ 63) negate (suc n) rest (omega arith) h
