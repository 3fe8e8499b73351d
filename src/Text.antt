-- ===== src/Text.antt =====
-- Byte strings (`std::string`) as lists of bytes, with the library operations that the sources
-- call on them: `==`, `find(char, pos)`, `substr(pos, n)`.
pub mod Decimal
pub mod Stoll
pub mod Words
use concurrent_cache.Prelude.{
  ℕ, zero, suc, ◌+◌, ◌-◌, ◌<◌, ◌≤◌, ◌≡◌, refl, ◌≢◌, ◌↔◌, Bool, true, false, ◌&&◌, Option, none,
  some, List, [], ◌∷◌, ◌++◌, arith, ◌==◌, ==_iff, if◌then◌else◌, length, take, drop, Bool-cases,
  inl, inr, length-append, ap,
}
use mathlib.Core.Option
use Prim.Native.Char.{code}
use Prim.Native.String.{String}

abbrev pub Bytes : Type 0
Bytes = List ℕ

-- The bytes of an ASCII literal of the source.
abbrev pub codes : String → Bytes
codes String.[] = []
codes (String.◌∷◌ c s) = code c ∷ codes s

unfoldable pub str_eq : Bytes → Bytes → Bool
str_eq [] [] = true
str_eq [] (b ∷ bs) = false
str_eq (a ∷ as') [] = false
str_eq (a ∷ as') (b ∷ bs) = a == b && str_eq as' bs

pub str_eq_iff : (s t : Bytes) → (str_eq s t ≡ true) ↔ (s ≡ t)
unfolding str_eq
str_eq_iff [] [] = (λ h. refl, λ h. refl)
str_eq_iff [] (b ∷ bs) = (λ h. cc, λ h. cc)
str_eq_iff (a ∷ as') [] = (λ h. cc, λ h. cc)
str_eq_iff (a ∷ as') (b ∷ bs) = ground (arith, str_eq_iff as' bs)

pub str_eq_refl : (s : Bytes) → str_eq s s ≡ true
str_eq_refl s = (str_eq_iff s s).1 refl

-- The first place of a byte.
unfoldable pub index_of : ℕ → Bytes → Option ℕ
index_of c [] = none
index_of c (b ∷ bs) = if b == c then some 0 else Option.map suc (index_of c bs)

-- `s.find(c, pos)`; `none` is `npos`.
unfoldable pub find_char : Bytes → ℕ → ℕ → Option ℕ
unfolding index_of
find_char s c pos = Option.map (λ i. pos + i) (index_of c (drop pos s))

-- `s.substr(pos, n)`
unfoldable pub substr : Bytes → ℕ → ℕ → Bytes
substr s pos n = take n (drop pos s)

-- No byte of the text is `c`.
abbrev pub Lacks : ℕ → Bytes → Type 0
Lacks c [] = Unit {0}
Lacks c (b ∷ bs) = (b ≢ c) × Lacks c bs

pub index_of-append : (c : ℕ) (s t : Bytes) → Lacks c s → index_of c (s ++ c ∷ t) ≡ some (length s)
unfolding index_of
index_of-append c [] t h = ground arith
index_of-append c (b ∷ s) t h = ground (arith, index_of-append c s t)
