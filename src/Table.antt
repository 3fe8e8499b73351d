-- ===== src/Table.antt =====
-- `std::unordered_map<std::string, V>` and, with unit values, `std::unordered_set<std::string>`.
-- The entries stand in the order of iteration; a new key goes last. No statement of the other
-- modules depends on where it goes, except where it speaks of that order.
use concurrent_cache.Prelude.{
  ◌+◌, ◌≡◌, refl, Bool, true, false, Option, none, some, List, [], ◌∷◌, ◌++◌, arith, if◌then◌else◌,
  length,
}
use concurrent_cache.Text.{Bytes, str_eq, str_eq_iff}

abbrev pub Table {ℓ} : Type ℓ → Type ℓ
Table V = List (Bytes × V)

module _ {ℓ} {V : Type ℓ} where
  -- find(key)
  unfoldable pub find : Bytes → Table V → Option V
  find k [] = none
  find k ((j, v) ∷ m) = if str_eq j k then some v else find k m

  -- contains(key)
  unfoldable pub contains : Bytes → Table V → Bool
  contains k [] = false
  contains k ((j, v) ∷ m) = if str_eq j k then true else contains k m

  -- insert_or_assign(key, value), and map[key] = value
  unfoldable pub insert_or_assign : Bytes → V → Table V → Table V
  insert_or_assign k v [] = (k, v) ∷ []
  insert_or_assign k v ((j, w) ∷ m) =
      if str_eq j k then (j, v) ∷ m else (j, w) ∷ insert_or_assign k v m

  -- erase(key)
  unfoldable pub erase : Bytes → Table V → Table V
  erase k [] = []
  erase k ((j, v) ∷ m) = if str_eq j k then erase k m else (j, v) ∷ erase k m

  abbrev pub keys : Table V → List Bytes
  keys [] = []
  keys ((j, v) ∷ m) = j ∷ keys m

  pub find-insert_or_assign :
      (j k : Bytes) (v : V) (m : Table V)
      → find j (insert_or_assign k v m) ≡ (if str_eq k j then some v else find j m)
  unfolding find insert_or_assign
  find-insert_or_assign j k v [] = refl
  find-insert_or_assign j k v ((i, w) ∷ m) =
      ground (arith, str_eq_iff k j, str_eq_iff i k, str_eq_iff i j, find-insert_or_assign j k v m)

  pub find-erase :
      (j k : Bytes) (m : Table V) → find j (erase k m) ≡ (if str_eq k j then none else find j m)
  unfolding find erase
  find-erase j k [] = ground arith
  find-erase j k ((i, w) ∷ m) =
      ground (arith, str_eq_iff k j, str_eq_iff i k, str_eq_iff i j, find-erase j k m)

  pub contains-find : (k : Bytes) (m : Table V) → contains k m ≡ false → find k m ≡ none
  unfolding contains find
  contains-find k [] h = refl
  contains-find k ((i, w) ∷ m) h = ground (arith, contains-find k m)

  pub find-contains : (k : Bytes) (m : Table V) → find k m ≡ none → contains k m ≡ false
  unfolding contains find
  find-contains k [] h = refl
  find-contains k ((i, w) ∷ m) h = ground (arith, find-contains k m)

  pub contains-some : (k : Bytes) (m : Table V) (v : V) → find k m ≡ some v → contains k m ≡ true
  unfolding contains find
  contains-some k [] v h = cc
  contains-some k ((i, w) ∷ m) v h = ground (arith, contains-some k m v)

  pub contains-insert_or_assign :
      (j k : Bytes) (v : V) (m : Table V)
      → contains j (insert_or_assign k v m) ≡ (if str_eq k j then true else contains j m)
  unfolding contains insert_or_assign
  contains-insert_or_assign j k v [] = refl
  contains-insert_or_assign j k v ((i, w) ∷ m) =
      ground
        (arith, str_eq_iff k j, str_eq_iff i k, str_eq_iff i j, contains-insert_or_assign j k v m)

  contains-erase :
      (j k : Bytes) (m : Table V)
      → contains j (erase k m) ≡ (if str_eq k j then false else contains j m)
  unfolding contains erase
  contains-erase j k [] = ground arith
  contains-erase j k ((i, w) ∷ m) =
      ground (arith, str_eq_iff k j, str_eq_iff i k, str_eq_iff i j, contains-erase j k m)

  -- A key that is not there changes nothing when it is erased, and goes last when inserted.
  erase_absent : (k : Bytes) (m : Table V) → contains k m ≡ false → erase k m ≡ m
  unfolding contains erase
  erase_absent k [] h = refl
  erase_absent k ((i, w) ∷ m) h = ground (arith, erase_absent k m)

  pub insert_absent :
      (k : Bytes) (v : V) (m : Table V)
      → contains k m ≡ false
      → insert_or_assign k v m ≡ m ++ (k, v) ∷ []
  unfolding contains insert_or_assign
  insert_absent k v [] h = refl
  insert_absent k v ((i, w) ∷ m) h = ground (arith, insert_absent k v m)

  -- No key twice.
  abbrev pub IsDistinct : Table V → Type 0
  IsDistinct [] = Unit {0}
  IsDistinct ((k, v) ∷ m) = (contains k m ≡ false) × IsDistinct m

  pub insert_or_assign-IsDistinct :
      (k : Bytes) (v : V) (m : Table V) → IsDistinct m → IsDistinct (insert_or_assign k v m)
  unfolding contains insert_or_assign
  insert_or_assign-IsDistinct k v [] d = (refl, tt)
  insert_or_assign-IsDistinct k v ((i, w) ∷ m) d = ground (
    arith,
    str_eq_iff k i,
    str_eq_iff i k,
    contains-insert_or_assign i k v m,
    insert_or_assign-IsDistinct k v m,
  )

  pub erase-IsDistinct : (k : Bytes) (m : Table V) → IsDistinct m → IsDistinct (erase k m)
  unfolding contains erase
  erase-IsDistinct k [] d = tt
  erase-IsDistinct k ((i, w) ∷ m) d =
      ground (arith, str_eq_iff k i, contains-erase i k m, erase-IsDistinct k m)

  pub length-erase :
      (k : Bytes) (m : Table V)
      → IsDistinct m
      → length (erase k m) + (if contains k m then 1 else 0) ≡ length m
  unfolding contains erase
  length-erase k [] d = refl
  length-erase k ((i, w) ∷ m) d = ground (arith, str_eq_iff i k, length-erase k m, erase_absent k m)

  length-insert_or_assign :
      (k : Bytes) (v : V) (m : Table V)
      → length (insert_or_assign k v m) ≡ (if contains k m then length m else length m + 1)
  unfolding contains insert_or_assign
  length-insert_or_assign k v [] = refl
  length-insert_or_assign k v ((i, w) ∷ m) = ground (arith, length-insert_or_assign k v m)

  contains_append :
      (j k : Bytes) (v : V) (xs ys : Table V)
      → contains j (xs ++ (k, v) ∷ ys) ≡ false
      → str_eq k j ≡ false
  unfolding contains
  contains_append j k v [] ys h = ground arith
  contains_append j k v ((i, w) ∷ xs) ys h = ground (arith, contains_append j k v xs ys)

  pub contains_middle :
      (k : Bytes) (v : V) (xs ys : Table V) → IsDistinct (xs ++ (k, v) ∷ ys) → contains k xs ≡ false
  unfolding contains
  contains_middle k v [] ys d = refl
  contains_middle k v ((j, w) ∷ xs) ys d = ground (
    arith,
    str_eq_iff j k,
    str_eq_iff k j,
    contains_append j k v xs ys,
    contains_middle k v xs ys,
  )
