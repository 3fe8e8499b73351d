-- ===== src/MemoryPool/SizeClass/Rounding.antt =====
-- What a size class promises.
use concurrent_cache.Prelude.{
  ℕ, zero, suc, ◌+◌, ◌≡◌, refl, ◌∙◌, ◌≤◌, ◌<◌, List, [], ◌∷◌, arith, ltb, leb, get_or, length, ◌↔◌,
  ◌&&◌, drop, Bool, Bool-cases, inl, inr, true, false,
}
use concurrent_cache.MemoryPool.SizeClass.{
  size_classes, num_classes, class_at, first_fit, get_index, get_size, round_up,
}

-- The last of the sizes.
abbrev last : List ℕ → ℕ
last [] = 0
last (c ∷ []) = c
last (c ∷ d ∷ cs) = last (d ∷ cs)

-- The search from position `i` on finds the first class that is large enough, if the last one is.
first_fit_lem :
    (c : ℕ) (cs : List ℕ) (i size : ℕ)
    → size ≤ last (c ∷ cs)
    → (k : ℕ) × (first_fit (c ∷ cs) i size ≡ i + k)
      × (k < length (c ∷ cs))
      × (size ≤ get_or (c ∷ cs) k 0)
      × ((j : ℕ) → j < k → get_or (c ∷ cs) j 0 < size)
first_fit_lem c [] i size h = (0, ground arith, omega arith, h, λ j lt. absurd (omega arith))
first_fit_lem c (d ∷ cs) i size h = elim (Bool-cases (leb size c)) [
  | inl fits ↦ (0, ground arith, omega arith, ground arith, λ j lt. absurd (omega arith))
  | inr small ↦
      let (k, found, within, large, least) = first_fit_lem d cs (suc i) size h in
      (suc k, rw small (found ∙ omega arith), omega arith, large, smaller k (ground arith) least)
]
  where
    smaller :
        (k : ℕ)
        → c < size
        → ((j : ℕ) → j < k → get_or (d ∷ cs) j 0 < size)
        → (j : ℕ) → j < suc k
        → get_or (c ∷ d ∷ cs) j 0 < size
    smaller k more least zero lt = more
    smaller k more least (suc j) lt = least j (omega arith)

-- Each of the sizes is at most the next.
abbrev is_sorted : List ℕ → Bool
is_sorted [] = true
is_sorted (c ∷ []) = true
is_sorted (c ∷ d ∷ cs) = leb c d && is_sorted (d ∷ cs)

sorted_le :
    (cs : List ℕ) (i j : ℕ)
    → is_sorted cs ≡ true
    → i ≤ j
    → j < length cs
    → get_or cs i 0 ≤ get_or cs j 0
sorted_le [] i j s le lt = absurd (omega arith)
sorted_le (c ∷ cs) (suc i) zero s le lt = absurd (omega arith)
sorted_le (c ∷ []) zero zero s le lt = omega arith
sorted_le (c ∷ []) i (suc j) s le lt = absurd (omega arith)
sorted_le (c ∷ d ∷ cs) zero zero s le lt = omega arith
sorted_le (c ∷ d ∷ cs) zero (suc j) s le lt =
    ground (arith, sorted_le (d ∷ cs) 0 j (ground arith) (omega arith) (omega arith))
sorted_le (c ∷ d ∷ cs) (suc i) (suc j) s le lt =
    sorted_le (d ∷ cs) i j (ground arith) (omega arith) (omega arith)

small_found :
    (size : ℕ)
    → size ≤ 262144
    → (k : ℕ) × (get_index size ≡ k)
      × (k < num_classes)
      × (size ≤ class_at k)
      × ((j : ℕ) → j < k → class_at j < size)
unfolding get_index
small_found size h =
    let (k, found, within, large, least) = first_fit_lem 8 (drop 1 size_classes) 0 size h in
    (k, rw (not_above h) (found ∙ omega arith), within, large, least)
  where
    not_above : size ≤ 262144 → ltb 262144 size ≡ false
    not_above h = ground arith

-- For a request of at most 262144 bytes, the index found is that of one of the 29 classes, and the
-- classes that are large enough are exactly those from that index on: the class found is the best
-- fit.
pub get_index_lem :
    (size j : ℕ)
    → size ≤ 262144
    → j < num_classes
    → (get_index size < num_classes) × ((size ≤ get_size j) ↔ (get_index size ≤ j))
unfolding get_size
get_index_lem size j h lt =
    let (k, found, within, large, least) = small_found size h in
    rw found (
      within,
      (
        (λ le. reach k least le),
        (λ le. ground (arith, large, sorted_le size_classes k j refl le lt)),
      ),
    )
  where
    reach : (k : ℕ) → ((j : ℕ) → j < k → class_at j < size) → size ≤ class_at j → k ≤ j
    reach k least le = elim (Bool-cases (ltb j k)) [
      | inl lt ↦ absurd (ground (arith, least j (ground arith)))
      | inr ge ↦ ground arith
    ]

round_up_small : (size : ℕ) → size ≤ 262144 → round_up size ≡ get_size (get_index size)
unfolding round_up get_size
round_up_small size h = ground arith

round_up_large : (size : ℕ) → 262144 < size → round_up size ≡ size
unfolding round_up
round_up_large size h = ground arith

get_size_le : (i j : ℕ) → i ≤ j → j < num_classes → get_size i ≤ get_size j
unfolding get_size
get_size_le i j le lt = sorted_le size_classes i j refl le lt

under_last : (i : ℕ) → i < num_classes → get_size i ≤ 262144
unfolding get_size
under_last i lt = sorted_le size_classes i 28 refl (omega arith) (omega arith)

-- A request rounds up to a size that is large enough, and at most the largest class.
best_fit :
    (size : ℕ)
    → size ≤ 262144
    → (get_index size < num_classes) × (size ≤ round_up size) × (round_up size ≤ 262144)
best_fit size h =
    let (lt, (_, fits)) =
      get_index_lem size (get_index size) h (get_index_lem size 0 h (omega arith)).0 in
    (
      lt,
      ground (arith, fits, round_up_small size h),
      rw (round_up_small size h) (under_last (get_index size) lt),
    )

get_index_le :
    (size more : ℕ)
    → size ≤ round_up more
    → more ≤ 262144
    → size ≤ 262144
    → get_index size ≤ get_index more
get_index_le size more le h k =
    (get_index_lem size (get_index more) k (best_fit more h).0).1.0
      (ground (arith, round_up_small more h))

round_up_le :
    (size more : ℕ)
    → size ≤ round_up more
    → more ≤ 262144
    → size ≤ 262144
    → round_up size ≤ round_up more
round_up_le size more le h k =
    rw (round_up_small size k, round_up_small more h)
      (get_size_le (get_index size) (get_index more) (get_index_le size more le h k)
        (best_fit more h).0)

-- What is handed out is never less than what is asked for, no smaller for a larger request, and
-- rounded up already.
pub round_up_lem :
    (size more : ℕ)
    → size ≤ more
    → (size ≤ round_up size)
      × (round_up size ≤ round_up more)
      × (round_up (round_up size) ≡ round_up size)
round_up_lem size more h = elim (Bool-cases (leb more 262144)) [
  | inl small ↦ within (ground arith) (ground arith)
  | inr large ↦ elim (Bool-cases (leb size 262144)) [
    | inl small ↦ below (ground arith) (ground arith)
    | inr above ↦
        rw (round_up_large size (ground arith), round_up_large more (ground arith))
          (omega arith, h, round_up_large size (ground arith))
  ]
]
  where
    settled : size ≤ 262144 → round_up (round_up size) ≡ round_up size
    settled k = omega (
      arith,
      (best_fit size k).2,
      (best_fit (round_up size) (best_fit size k).2).1,
      round_up_le (round_up size) size (omega arith) k (best_fit size k).2,
    )

    within :
        more ≤ 262144
        → size ≤ 262144
        → (size ≤ round_up size)
          × (round_up size ≤ round_up more)
          × (round_up (round_up size) ≡ round_up size)
    within k l = (
      (best_fit size l).1,
      round_up_le size more (omega (arith, (best_fit more k).1)) k l,
      settled l,
    )

    below :
        262144 < more
        → size ≤ 262144
        → (size ≤ round_up size)
          × (round_up size ≤ round_up more)
          × (round_up (round_up size) ≡ round_up size)
    below k l =
        rw (round_up_large more k)
          ((best_fit size l).1, omega (arith, (best_fit size l).2), settled l)
