-- ===== src/Datatype/Object/Members.antt =====
-- src/datatype/object.h and object.cpp: `std::set<ZSetMember>`, in the order of its comparison.
use concurrent_cache.Prelude.{
  Bool, true, false, Option, none, some, List, [], ◌∷◌, if◌then◌else◌, ltb, ◌==◌, not, ◌&&◌,
}
use concurrent_cache.Text.{Bytes, str_eq}
use concurrent_cache.Datatype.Double.{Double, double_lt, double_eq, double_le}

pub record ZSetMember : Type 0 where
  pub member : Bytes
  pub score : Double

-- `<` of std::string: by bytes, a proper prefix first.
unfoldable pub str_lt : Bytes → Bytes → Bool
str_lt [] [] = false
str_lt [] (b ∷ bs) = true
str_lt (a ∷ as') [] = false
str_lt (a ∷ as') (b ∷ bs) = if ltb a b then true else (a == b) && str_lt as' bs

-- ZSetMember::operator<
unfoldable pub member_lt : ZSetMember → ZSetMember → Bool
member_lt a b =
    if double_lt a.score b.score
    then true
    else if double_lt b.score a.score
    then false
    else str_lt a.member b.member

-- std::set::insert: the set afterwards, and whether the element is new.
unfoldable pub insert_member : ZSetMember → List ZSetMember → List ZSetMember × Bool
insert_member x [] = (x ∷ [], true)
insert_member x (y ∷ ys) =
    let (rest, inserted) = insert_member x ys in
    if member_lt y x
    then (y ∷ rest, inserted)
    else if member_lt x y
    then (x ∷ y ∷ ys, true)
    else (y ∷ ys, false)

-- The linear search for a member: its score, if it is there.
unfoldable pub score_of : Bytes → List ZSetMember → Option Double
score_of m [] = none
score_of m (z ∷ zs) = if str_eq z.member m then some z.score else score_of m zs

-- The search of `zset_add`: the member is there with another score.
unfoldable pub score_differs : Bytes → Double → List ZSetMember → Bool
score_differs m s [] = false
score_differs m s (z ∷ zs) =
    if str_eq z.member m then not (double_eq z.score s) else score_differs m s zs

-- Erasing what the search found.
unfoldable pub erase_member : Bytes → List ZSetMember → List ZSetMember
erase_member m [] = []
erase_member m (z ∷ zs) = if str_eq z.member m then zs else z ∷ erase_member m zs

abbrev pub pairs : List ZSetMember → List (Bytes × Double)
pairs [] = []
pairs (z ∷ zs) = (z.member, z.score) ∷ pairs zs

-- The loop of `zset_range_by_score`.
unfoldable pub between_scores : Double → Double → List ZSetMember → List (Bytes × Double)
between_scores lo hi [] = []
between_scores lo hi (z ∷ zs) =
    if double_le lo z.score && double_le z.score hi
    then (z.member, z.score) ∷ between_scores lo hi zs
    else between_scores lo hi zs
