-- ===== src/Prelude/Pick.antt =====
-- The elements of a list at the positions that pass a test.
use Prim.Native.Nat.{ℕ, zero, suc, ◌+◌, ◌-◌, ◌<◌, ◌≤◌, max}
use mathlib.Core.Path.{◌≡◌, refl, sym, ap, ◌∙◌}
use mathlib.Core.Bool.{Bool, false, ◌&&◌}
use mathlib.Core.List.{List, [], ◌∷◌}
use mathlib.Core.Logic.{inl, inr}
use native.Mathlib.Omega.{arith}
use concurrent_cache.Prelude.Tests.{leb, if◌then◌else◌, Bool-cases}
use concurrent_cache.Prelude.Lists.{length, take, drop}

module _ {ℓ} {A : Type ℓ} where
  abbrev pub pick : (ℕ → Bool) → ℕ → List A → List A
  pick p i [] = []
  pick p i (x ∷ xs) = if p i then x ∷ pick p (suc i) xs else pick p (suc i) xs

  pub pick_congr :
      (p q : ℕ → Bool) (i : ℕ) (xs : List A)
      → ((j : ℕ) → i ≤ j → j < i + length xs → p j ≡ q j)
      → pick p i xs ≡ pick q i xs
  pick_congr p q i [] h = refl
  pick_congr p q i (x ∷ xs) h = rw (
    h i (omega arith) (omega arith),
    pick_congr p q (suc i) xs (λ j le lt. h j (omega arith) (omega arith)),
  )

  pub pick_none :
      (p : ℕ → Bool) (i : ℕ) (xs : List A)
      → ((j : ℕ) → i ≤ j → j < i + length xs → p j ≡ false)
      → pick p i xs ≡ []
  pick_none p i [] h = refl
  pick_none p i (x ∷ xs) h =
      rw (h i (omega arith) (omega arith))
        (pick_none p (suc i) xs (λ j le lt. h j (omega arith) (omega arith)))

  take-drop-nil : (n d : ℕ) → take {A = A} n (drop d []) ≡ []
  take-drop-nil zero zero = refl
  take-drop-nil zero (suc d) = refl
  take-drop-nil (suc n) zero = refl
  take-drop-nil (suc n) (suc d) = refl

  -- Which part of `x ∷ xs` a range takes, by where it begins.
  take_here :
      (n d : ℕ) (x : A) (xs : List A) (m : ℕ)
      → d ≡ 0
      → n ≡ suc m
      → take n (drop d (x ∷ xs)) ≡ x ∷ take m xs
  take_here n d x xs m e f = rw (e, f)

  drop_later :
      (n d : ℕ) (x : A) (xs : List A) (e : ℕ)
      → d ≡ suc e
      → take n (drop d (x ∷ xs)) ≡ take n (drop e xs)
  drop_later n d x xs e h = rw h

  take_now : (n m d : ℕ) (xs : List A) → n ≡ m → d ≡ 0 → take n xs ≡ take m (drop d xs)
  take_now n m d xs e h = rw (e, h)

  take_zero : (n : ℕ) (xs : List A) → n ≡ 0 → take n xs ≡ []
  take_zero n xs e = rw e

  -- A slice holds the elements at the positions `lo` to `hi`.
  pub slice-pick :
      (lo hi i : ℕ) (xs : List A)
      → take (hi + 1 - max lo i) (drop (lo - i) xs) ≡ pick (λ j. leb lo j && leb j hi) i xs
  slice-pick lo hi i [] = take-drop-nil (hi + 1 - max lo i) (lo - i)
  slice-pick lo hi i (x ∷ xs) = elim (Bool-cases (leb i hi)) [
    | inr past ↦
        take_zero _ _ (ground arith)
        ∙ sym (pick_none (λ j. leb lo j && leb j hi) i (x ∷ xs) (λ j le lt. ground arith))
    | inl fits ↦ elim (Bool-cases (leb lo i)) [
      | inl reached ↦
          rw (fits, reached)
            (take_here _ _ x xs (hi - i) (ground arith) (ground arith)
              ∙ ap (λ ys. x ∷ ys)
                  (take_now (hi - i) (hi + 1 - max lo (suc i)) (lo - suc i) xs (ground arith)
                      (ground arith)
                    ∙ slice-pick lo hi (suc i) xs))
      | inr early ↦ rw early (
          drop_later _ _ x xs (lo - suc i) (ground arith)
          ∙ ap (λ n. take n (drop (lo - suc i) xs)) (ground arith)
          ∙ slice-pick lo hi (suc i) xs)
    ]
  ]
