-- ===== src/Datatype/Double.antt =====
-- `double` as its IEEE 754 bit pattern, with the comparisons that the sorted sets use.
use concurrent_cache.Prelude.{
  ℕ, ◌+◌, ◌*◌, ◌-◌, ◌%◌, ◌^◌, ◌≡◌, Bool, true, false, ◌&&◌, ◌||◌, not, arith, ◌==◌, ltb, leb,
  if◌then◌else◌,
}

-- Sign bit, eleven bits of exponent, 52 bits of fraction.
abbrev pub Double : Type 0
Double = ℕ

abbrev sign_bit : Double → Bool
sign_bit d = leb (2 ^ 63) d

abbrev without_sign : Double → ℕ
without_sign d = d % 2 ^ 63

-- The pattern of infinity without its sign.
abbrev infinity : ℕ
infinity = 2047 * 2 ^ 52

abbrev pub is_nan : Double → Bool
is_nan d = ltb infinity (without_sign d)

abbrev pub is_inf : Double → Bool
is_inf d = without_sign d == infinity

-- A number that grows with the value of `d`; both zeros have the same.
abbrev rank : Double → ℕ
rank d = if sign_bit d then 2 ^ 63 - without_sign d else 2 ^ 63 + without_sign d

-- `a < b` and `a == b`: false as soon as one side is not a number.
unfoldable pub double_lt : Double → Double → Bool
double_lt a b = not (is_nan a || is_nan b) && ltb (rank a) (rank b)

unfoldable pub double_eq : Double → Double → Bool
double_eq a b = not (is_nan a || is_nan b) && (rank a == rank b)

unfoldable pub double_le : Double → Double → Bool
double_le a b = not (is_nan a || is_nan b) && leb (rank a) (rank b)

double_lt_irrefl : (a : Double) → double_lt a a ≡ false
unfolding double_lt
double_lt_irrefl a = ground arith

double_lt_trans :
    (a b c : Double) → double_lt a b ≡ true → double_lt b c ≡ true → double_lt a c ≡ true
unfolding double_lt
double_lt_trans a b c h k = ground arith
