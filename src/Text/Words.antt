-- ===== src/Text/Words.antt =====
-- Fixed-width unsigned integers as bytes: `memcpy` of one, least significant byte first, and the
-- sources' own most significant byte first.
use concurrent_cache.Prelude.{
  ℕ, zero, suc, ◌+◌, ◌*◌, ◌/◌, ◌%◌, ◌<◌, ◌≡◌, refl, [], ◌∷◌, ◌++◌, arith, length, ap, ◌∙◌,
}
use concurrent_cache.Text.{Bytes}

-- `uint8_t`s of a `w`-byte integer, the lowest first.
abbrev pub little_endian : ℕ → ℕ → Bytes
little_endian zero v = []
little_endian (suc w) v = v % 256 ∷ little_endian w (v / 256)

abbrev pub from_little_endian : Bytes → ℕ
from_little_endian [] = 0
from_little_endian (b ∷ bs) = b + 256 * from_little_endian bs

-- 2 ^ (8 * w)
abbrev pub range : ℕ → ℕ
range zero = 1
range (suc w) = 256 * range w

pub from_little_endian-little_endian :
    (w v : ℕ) → v < range w → from_little_endian (little_endian w v) ≡ v
from_little_endian-little_endian zero v h = omega arith
from_little_endian-little_endian (suc w) v h =
    omega (arith, from_little_endian-little_endian w (v / 256) (omega arith))

pub length-little_endian : (w v : ℕ) → length (little_endian w v) ≡ w
length-little_endian zero v = refl
length-little_endian (suc w) v = ap suc (length-little_endian w (v / 256))

-- The `w` low bytes of an integer in front of `out`, the highest first.
unfoldable pub big_endian_onto : ℕ → ℕ → Bytes → Bytes
big_endian_onto zero v out = out
big_endian_onto (suc w) v out = big_endian_onto w (v / 256) (v % 256 ∷ out)

unfoldable pub from_big_endian : Bytes → ℕ → ℕ
from_big_endian [] v = v
from_big_endian (b ∷ bs) v = from_big_endian bs (v * 256 + b)

from_big_endian-onto :
    (w v : ℕ) (out : Bytes)
    → v < range w
    → from_big_endian (big_endian_onto w v out) 0 ≡ from_big_endian out v
unfolding big_endian_onto from_big_endian
from_big_endian-onto zero v out h = ap (from_big_endian out) {x = 0} {y = v} (omega arith)
from_big_endian-onto (suc w) v out h =
    from_big_endian-onto w (v / 256) (v % 256 ∷ out) (omega arith)
    ∙ ap (from_big_endian out) {x = (v / 256) * 256 + v % 256} {y = v} (omega arith)

pub from_big_endian-big_endian :
    (w v : ℕ) → v < range w → from_big_endian (big_endian_onto w v []) 0 ≡ v
unfolding from_big_endian
from_big_endian-big_endian w v h = from_big_endian-onto w v [] h

pub length-big_endian_onto :
    (w v : ℕ) (out : Bytes) → length (big_endian_onto w v out) ≡ w + length out
unfolding big_endian_onto
length-big_endian_onto zero v out = omega arith
length-big_endian_onto (suc w) v out =
    omega (arith, length-big_endian_onto w (v / 256) (v % 256 ∷ out))

pub big_endian_onto-append :
    (w v : ℕ) (out rest : Bytes)
    → big_endian_onto w v out ++ rest ≡ big_endian_onto w v (out ++ rest)
unfolding big_endian_onto
big_endian_onto-append zero v out rest = refl
big_endian_onto-append (suc w) v out rest = big_endian_onto-append w (v / 256) (v % 256 ∷ out) rest
