-- ===== src/Prelude/Splits.antt =====
-- How `take` and `drop` meet append and each other, and lists compared by position.
use Prim.Native.Nat.{ℕ, zero, suc, ◌+◌, ◌-◌, ◌≤◌, ◌<◌}
use mathlib.Core.Path.{◌≡◌, refl, ap, ◌∙◌}
use mathlib.Core.List.{List, [], ◌∷◌, ◌++◌}
use mathlib.Core.Option.{some}
use native.Mathlib.Omega.{arith}
use concurrent_cache.Prelude.Lists.{length, take, drop, get_elem?, get_or}

module _ {ℓ} {A : Type ℓ} where
  pub drop-append_le :
      (d : ℕ) (xs ys : List A) → d ≤ length xs → drop d (xs ++ ys) ≡ drop d xs ++ ys
  drop-append_le zero xs ys h = refl
  drop-append_le (suc d) [] ys h = absurd (omega arith)
  drop-append_le (suc d) (x ∷ xs) ys h = drop-append_le d xs ys (omega arith)

  pub take-append_le : (n : ℕ) (xs ys : List A) → n ≤ length xs → take n (xs ++ ys) ≡ take n xs
  take-append_le zero xs ys h = refl
  take-append_le (suc n) [] ys h = absurd (omega arith)
  take-append_le (suc n) (x ∷ xs) ys h = ap (λ r. x ∷ r) (take-append_le n xs ys (omega arith))

  pub drop-take : (d n : ℕ) (xs : List A) → drop d (take n xs) ≡ take (n - d) (drop d xs)
  drop-take zero n xs = ap (λ k. take k xs) {x = n} {y = n - 0} (omega arith)
  drop-take (suc d) zero xs =
      ap (λ k. take k (drop (suc d) xs)) {x = 0} {y = 0 - suc d} (omega arith)
  drop-take (suc d) (suc n) [] = nothing (suc n - suc d)
    where
      nothing : (k : ℕ) → [] ≡ take {A = A} k []
      nothing zero = refl
      nothing (suc k) = refl
  drop-take (suc d) (suc n) (x ∷ xs) =
      drop-take d n xs ∙ ap (λ k. take k (drop d xs)) {x = n - d} {y = suc n - suc d} (omega arith)

  pub get_elem?-drop : (d j : ℕ) (xs : List A) → get_elem? (drop d xs) j ≡ get_elem? xs (d + j)
  get_elem?-drop zero j xs = ap (λ k. get_elem? xs k) {x = j} {y = 0 + j} (omega arith)
  get_elem?-drop (suc d) j [] = refl
  get_elem?-drop (suc d) j (x ∷ xs) =
      get_elem?-drop d j xs
      ∙ ap (λ k. get_elem? (x ∷ xs) k) {x = suc (d + j)} {y = suc d + j} (omega arith)

  pub get_elem?-get_or :
      (xs : List A) (j : ℕ) (a : A) → j < length xs → get_elem? xs j ≡ some (get_or xs j a)
  get_elem?-get_or [] j a h = absurd (omega arith)
  get_elem?-get_or (x ∷ xs) zero a h = refl
  get_elem?-get_or (x ∷ xs) (suc j) a h = get_elem?-get_or xs j a (omega arith)

  -- Lists with the same elements at the first `n` positions have the same beginning.
  pub take_ext :
      (n : ℕ) (xs ys : List A)
      → ((j : ℕ) → j < n → get_elem? xs j ≡ get_elem? ys j)
      → take n xs ≡ take n ys
  take_ext zero xs ys h = refl
  take_ext (suc n) [] [] h = refl
  take_ext (suc n) [] (y ∷ ys) h = absurd (ground (arith, h 0 (omega arith)))
  take_ext (suc n) (x ∷ xs) [] h = absurd (ground (arith, h 0 (omega arith)))
  take_ext (suc n) (x ∷ xs) (y ∷ ys) h =
      rw (heads (h 0 (omega arith)), take_ext n xs ys (λ j lt. h (suc j) (omega arith)))
    where
      heads : some x ≡ some y → x ≡ y
      heads e = ground (arith, e)
