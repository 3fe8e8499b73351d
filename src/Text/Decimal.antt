-- ===== src/Text/Decimal.antt =====
-- `std::to_string` and `std::from_chars` for integers, as the sources use them.
use concurrent_cache.Prelude.{
  ℕ, zero, suc, ◌+◌, ◌-◌, ◌*◌, ◌/◌, ◌%◌, ◌^◌, ◌<◌, ◌≡◌, refl, Bool, true, false, ◌&&◌, Option, none,
  some, [], ◌∷◌, ◌++◌, arith, ◌==◌, ltb, leb, if◌then◌else◌, ◌∙◌, ℤ, pos, negsuc,
}
use concurrent_cache.Text.{Bytes, Lacks}

abbrev pub is_digit : ℕ → Bool
is_digit c = leb b'0' c && leb c b'9'

-- The digits of `n` in front of `out`; the fuel bounds their number.
unfoldable pub print_loop : ℕ → ℕ → Bytes → Bytes
print_loop zero n out = out
print_loop (suc f) n out =
    let grown = (b'0' + n % 10) ∷ out in
    let more = print_loop f (n / 10) grown in if n / 10 == 0 then grown else more

-- std::to_string of an unsigned value.
unfoldable pub to_string : ℕ → Bytes
unfolding print_loop
to_string n = print_loop (suc n) n []

-- std::to_string of a signed value.
unfoldable pub to_string_ℤ : ℤ → Bytes
unfolding to_string
to_string_ℤ (pos n) = to_string n
to_string_ℤ (negsuc n) = b'-' ∷ to_string (suc n)

-- The longest prefix of digits, read into `acc`, and the rest of the text.
unfoldable pub scan : Bytes → ℕ → ℕ × Bytes
scan [] acc = (acc, [])
scan (c ∷ s) acc =
    let more = scan s (acc * 10 + (c - b'0')) in if is_digit c then more else (acc, c ∷ s)

abbrev pub starts_with_digit : Bytes → Bool
starts_with_digit [] = false
starts_with_digit (c ∷ s) = is_digit c

-- The result of from_chars: `ec` and, on success, the value and the text from `ptr` on.
pub data FromChars (A : Type 0) : Type 0 where
  parsed : A → Bytes → FromChars A
  invalid_argument : FromChars A
  result_out_of_range : FromChars A

-- std::from_chars into an unsigned long long.
unfoldable pub from_chars_ull : Bytes → FromChars ℕ
unfolding scan
from_chars_ull s =
    if starts_with_digit s
    then (let (v, rest) = scan s 0 in if ltb v (2 ^ 64) then parsed v rest else result_out_of_range)
    else invalid_argument

abbrev pub negate : ℕ → ℤ
negate zero = pos 0
negate (suc n) = negsuc n

unfoldable pub from_chars_magnitude : ℕ → (ℕ → ℤ) → Bytes → FromChars ℤ
from_chars_magnitude bound sign s =
    if starts_with_digit s
    then (let (v, rest) = scan s 0 in
        if leb v bound then parsed (sign v) rest else result_out_of_range)
    else invalid_argument

-- std::from_chars into a long long: a minus sign is read, a plus sign and blanks are not.
unfoldable pub from_chars_ll : Bytes → FromChars ℤ
unfolding scan from_chars_magnitude
from_chars_ll [] = invalid_argument
from_chars_ll (c ∷ s) =
    if c == b'-'
    then from_chars_magnitude (2 ^ 63) negate s
    else from_chars_magnitude (2 ^ 63 - 1) pos (c ∷ s)

-- `r.ec == std::errc() && r.ptr == last`
unfoldable pub whole : {A : Type 0} → FromChars A → Option A
whole (parsed v []) = some v
whole (parsed v (c ∷ s)) = none
whole invalid_argument = none
whole result_out_of_range = none

scan_digit :
    (d : ℕ) (s : Bytes) (acc : ℕ) → d < 10 → scan ((b'0' + d) ∷ s) acc ≡ scan s (acc * 10 + d)
unfolding scan
scan_digit d s acc h = ground arith

scan-print_loop : (f n : ℕ) (out : Bytes) → n < f → scan (print_loop f n out) 0 ≡ scan out n
unfolding print_loop
scan-print_loop zero n out h = elim h [ ]
scan-print_loop (suc f) n out h = ground (
  arith,
  scan_digit (n % 10) out 0,
  scan_digit (n % 10) out (n / 10),
  scan-print_loop f (n / 10) ((b'0' + n % 10) ∷ out),
)

-- What stands behind the digits in front of `out` comes back with them.
print_loop-append :
    (f n : ℕ) (out rest : Bytes) → print_loop f n out ++ rest ≡ print_loop f n (out ++ rest)
unfolding print_loop
print_loop-append zero n out rest = refl
print_loop-append (suc f) n out rest =
    ground (arith, print_loop-append f (n / 10) ((b'0' + n % 10) ∷ out) rest)

starts_with_digit-print_loop :
    (f n : ℕ) (out : Bytes)
    → (f ≡ 0 → starts_with_digit out ≡ true)
    → starts_with_digit (print_loop f n out) ≡ true
unfolding print_loop
starts_with_digit-print_loop zero n out h = h refl
starts_with_digit-print_loop (suc f) n out h =
    ground
      (arith, starts_with_digit-print_loop f (n / 10) ((b'0' + n % 10) ∷ out) (λ _. ground arith))

scan_stop : (s : Bytes) (n : ℕ) → starts_with_digit s ≡ false → scan s n ≡ (n, s)
unfolding scan
scan_stop [] n h = refl
scan_stop (c ∷ s) n h = ground arith

pub scan-to_string :
    (n : ℕ) (rest : Bytes)
    → starts_with_digit rest ≡ false
    → scan (to_string n ++ rest) 0 ≡ (n, rest)
unfolding to_string
scan-to_string n rest h =
    rw print_loop-append (scan-print_loop (suc n) n rest (omega arith) ∙ scan_stop rest n h)

pub starts_with_digit-to_string :
    (n : ℕ) (rest : Bytes) → starts_with_digit (to_string n ++ rest) ≡ true
unfolding to_string
starts_with_digit-to_string n rest =
    rw print_loop-append (starts_with_digit-print_loop (suc n) n rest (λ e. absurd (omega arith)))

-- Every unsigned value is read back from its print, whatever non-digit follows.
pub from_chars_ull-to_string :
    (n : ℕ) (rest : Bytes)
    → n < 2 ^ 64
    → starts_with_digit rest ≡ false
    → from_chars_ull (to_string n ++ rest) ≡ parsed n rest
unfolding from_chars_ull
from_chars_ull-to_string n rest lt h =
    rw (starts_with_digit-to_string n rest, scan-to_string n rest h) (ground arith)

-- The print of a number has digits only.
Lacks-print_loop :
    (c f n : ℕ) (out : Bytes) → is_digit c ≡ false → Lacks c out → Lacks c (print_loop f n out)
unfolding print_loop
Lacks-print_loop c zero n out h l = l
Lacks-print_loop c (suc f) n out h l =
    ground (arith, Lacks-print_loop c f (n / 10) ((b'0' + n % 10) ∷ out) h)

pub Lacks-to_string : (c n : ℕ) → is_digit c ≡ false → Lacks c (to_string n)
unfolding to_string
Lacks-to_string c n h = Lacks-print_loop c (suc n) n [] h tt
