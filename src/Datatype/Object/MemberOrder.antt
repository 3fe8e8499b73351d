-- ===== src/Datatype/Object/MemberOrder.antt =====
-- The order of `ZSetMember` is a strict linear order on members whose scores are numbers.
use concurrent_cache.Prelude.{◌≡◌, refl, true, false, [], ◌∷◌, arith}
use concurrent_cache.Text.{Bytes, str_eq}
use concurrent_cache.Datatype.Double.{double_lt, double_eq, is_nan}
use concurrent_cache.Datatype.Object.Members.{ZSetMember, str_lt, member_lt}

str_lt_irrefl : (s : Bytes) → str_lt s s ≡ false
unfolding str_lt
str_lt_irrefl [] = refl
str_lt_irrefl (a ∷ s) = ground (arith, str_lt_irrefl s)

str_lt_trans : (s t u : Bytes) → str_lt s t ≡ true → str_lt t u ≡ true → str_lt s u ≡ true
unfolding str_lt
str_lt_trans [] [] u h k = cc
str_lt_trans [] (b ∷ t) [] h k = cc
str_lt_trans [] (b ∷ t) (c ∷ u) h k = refl
str_lt_trans (a ∷ s) [] u h k = cc
str_lt_trans (a ∷ s) (b ∷ t) [] h k = cc
str_lt_trans (a ∷ s) (b ∷ t) (c ∷ u) h k = ground (arith, str_lt_trans s t u)

str_lt_linear : (s t : Bytes) → str_lt s t ≡ false → str_lt t s ≡ false → str_eq s t ≡ true
unfolding str_lt str_eq
str_lt_linear [] [] h k = refl
str_lt_linear [] (b ∷ t) h k = cc
str_lt_linear (a ∷ s) [] h k = cc
str_lt_linear (a ∷ s) (b ∷ t) h k = ground (arith, str_lt_linear s t)

abbrev pub IsNumber : ZSetMember → Type 0
IsNumber z = is_nan z.score ≡ false

pub member_lt_irrefl : (a : ZSetMember) → member_lt a a ≡ false
unfolding member_lt double_lt
member_lt_irrefl a = ground (arith, str_lt_irrefl a.member)

pub member_lt_trans :
    (a b c : ZSetMember)
    → IsNumber a
    → IsNumber b
    → IsNumber c
    → member_lt a b ≡ true
    → member_lt b c ≡ true
    → member_lt a c ≡ true
unfolding member_lt double_lt
member_lt_trans a b c p q r h k = ground (arith, str_lt_trans a.member b.member c.member)

-- Members that the set takes for equal have the same text.
pub member_lt_linear :
    (a b : ZSetMember)
    → IsNumber a
    → IsNumber b
    → member_lt a b ≡ false
    → member_lt b a ≡ false
    → str_eq a.member b.member ≡ true
unfolding member_lt double_lt
member_lt_linear a b p q h k = ground (arith, str_lt_linear a.member b.member)

-- What the order says of a member, it says of every member with that text and an equal score.
pub member_lt_congr :
    (a b c : ZSetMember)
    → a.member ≡ b.member
    → double_eq a.score b.score ≡ true
    → (member_lt c a ≡ member_lt c b) × (member_lt a c ≡ member_lt b c)
unfolding member_lt double_lt double_eq
member_lt_congr a b c h k = ground arith
