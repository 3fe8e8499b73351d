-- ===== src/Prelude/Cuts.antt =====
-- A list that is cut in two ways.
use Prim.Native.Nat.{◌≤◌}
use mathlib.Core.Path.{◌≡◌, refl}
use mathlib.Core.List.{List, [], ◌∷◌, ◌++◌}
use native.Mathlib.Omega.{arith}
use concurrent_cache.Prelude.Lists.{length, drop}

module _ {ℓ} {A : Type ℓ} where
  -- The shorter first part is a prefix of the longer, and the second parts differ by its rest.
  pub cut_shorter :
      (xs ys zs ws : List A)
      → xs ++ ys ≡ zs ++ ws
      → length xs ≤ length zs
      → (xs ++ drop (length xs) zs ≡ zs) × (ys ≡ drop (length xs) zs ++ ws)
  cut_shorter [] ys zs ws e h = (refl, e)
  cut_shorter (x ∷ xs) ys [] ws e h = absurd (omega arith)
  cut_shorter (x ∷ xs) ys (z ∷ zs) ws e h =
      let tail : xs ++ ys ≡ zs ++ ws = cc in
      let found = cut_shorter xs ys zs ws tail (omega arith) in
      let rest : xs ++ drop (length xs) zs ≡ zs = found.0 in (cc, found.1)
