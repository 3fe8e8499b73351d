-- ===== src/Network/Buffer/Copies.antt =====
-- What the moves of bytes within the vector of a buffer keep.
use concurrent_cache.Prelude.{
  ℕ, zero, suc, ◌+◌, ◌-◌, ◌≡◌, refl, sym, ◌∙◌, ◌≤◌, ◌<◌, ◌++◌, append_assoc, arith, ◌==◌, get_or,
  length, Bool-cases, inl, inr, ap, some, get_elem?, set, take, drop, length-set,
  get_elem?-set_self, get_elem?-set_ne, length-append, length-take, length-drop, length-replicate,
  drop-append_le, take-append_le, drop-take, get_elem?-drop, get_elem?-get_or, take_ext,
  take-length-append, take_all, replicate, ◌≢◌,
}
use mathlib.Core.Path.{subst}
use concurrent_cache.Text.{Bytes}
use concurrent_cache.Network.Buffer.{resize, copy, copy_backward}

-- `u` is `v` with its `n` bytes from `first` on copied to the front.
abbrev pub Moves : ℕ → ℕ → Bytes → Bytes → Type 0
Moves first n v u =
    (length u ≡ length v)
    × ((j : ℕ) → j < n → get_elem? u j ≡ get_elem? v (first + j))
    × ((j : ℕ) → n ≤ j → get_elem? u j ≡ get_elem? v j)

Moves-suc :
    (first n : ℕ) (v u : Bytes) (x : ℕ)
    → get_elem? v (first + n) ≡ some x
    → suc n ≤ first
    → first + n < length v
    → Moves first n (set v n x) u
    → Moves first (suc n) v u
Moves-suc first n v u x e h k (len, low, high) =
    (len ∙ length-set v n x, moved, λ j ge. high j (omega arith) ∙ other j (λ q. omega (arith, q)))
  where
    other : (j : ℕ) → n ≢ j → get_elem? (set v n x) j ≡ get_elem? v j
    other j ne = get_elem?-set_ne v x ne

    moved : (j : ℕ) → j < suc n → get_elem? u j ≡ get_elem? v (first + j)
    moved j lt = elim (Bool-cases (j == n)) [
      | inl last ↦
          high j (ground arith)
          ∙ ap (λ i. get_elem? (set v n x) i) {x = j} {y = n} (ground arith)
          ∙ get_elem?-set_self v n x (omega arith)
          ∙ sym e
          ∙ ap (λ i. get_elem? v (first + i)) {x = n} {y = j} (ground arith)
      | inr early ↦ low j (ground arith) ∙ other (first + j) (λ q. omega (arith, q))
    ]

-- The copy moves the bytes, if the two places do not overlap.
pub copy_backward-Moves :
    (first n : ℕ) (v : Bytes)
    → n ≤ first
    → first + n ≤ length v
    → Moves first n v (copy_backward first n 0 v)
unfolding copy_backward
copy_backward-Moves first zero v h k = (refl, λ j lt. absurd (omega arith), λ j ge. refl)
copy_backward-Moves first (suc n) v h k =
    subst (λ m. Moves first (suc n) v (copy_backward first n 0 (set v m (get_or v (first + n) 0))))
      {x = n} {y = 0 + n} (omega arith)
      (Moves-suc first n v (copy_backward first n 0 (set v n (get_or v (first + n) 0)))
        (get_or v (first + n) 0) (get_elem?-get_or v (first + n) 0 (omega arith)) h (omega arith)
        (copy_backward-Moves first n (set v n (get_or v (first + n) 0)) (omega arith)
          (omega (arith, length-set v n (get_or v (first + n) 0)))))

pub copy_backward-take :
    (first n : ℕ) (v : Bytes)
    → n ≤ first
    → first + n ≤ length v
    → take n (copy_backward first n 0 v) ≡ take n (drop first v)
copy_backward-take first n v h k =
    take_ext n _ _
      (λ j lt. (copy_backward-Moves first n v h k).1 j lt ∙ sym (get_elem?-drop first j v))

-- Appended bytes come behind those that were there.
pub copied :
    (bytes v : Bytes) (r w : ℕ)
    → r ≤ w
    → w + length bytes ≤ length v
    → take (w + length bytes - r) (drop r (copy bytes w v)) ≡ take (w - r) (drop r v) ++ bytes
unfolding copy
copied bytes v r w h k =
    ap (λ z. take (w + length bytes - r) z)
      (drop-append_le r (take w v) (bytes ++ drop (w + length bytes) v)
        (omega (arith, length-take w v)))
    ∙ ap (λ z. take (w + length bytes - r) z)
        (sym (append_assoc (drop r (take w v)) bytes (drop (w + length bytes) v)))
    ∙ ap (λ k. take k ((drop r (take w v) ++ bytes) ++ drop (w + length bytes) v))
        {x = w + length bytes - r} {y = length (drop r (take w v) ++ bytes)}
        (omega (
          arith,
          length-append (drop r (take w v)) bytes,
          length-drop r (take w v),
          length-take w v,
        ))
    ∙ take-length-append (drop r (take w v) ++ bytes) (drop (w + length bytes) v)
    ∙ ap (λ z. z ++ bytes) (drop-take r w v)

padded : (v : Bytes) (n : ℕ) → length v ≤ n → resize v n ≡ v ++ replicate (n - length v) 0
unfolding resize
padded v n l = rw (take_all n v l)

-- The bytes of a vector that it is resized to hold stay.
pub resized :
    (v : Bytes) (r w n : ℕ)
    → r ≤ w
    → w ≤ length v
    → length v ≤ n
    → (take (w - r) (drop r (resize v n)) ≡ take (w - r) (drop r v)) × (length (resize v n) ≡ n)
resized v r w n h k l = rw (padded v n l) (
  ap (λ z. take (w - r) z) (drop-append_le r v (replicate (n - length v) 0) (omega arith))
      ∙ take-append_le (w - r) (drop r v) (replicate (n - length v) 0)
          (omega (arith, length-drop r v)),
  omega (
    arith,
    length-append v (replicate (n - length v) 0),
    length-replicate {A = ℕ} (n - length v) 0,
  ),
)

pub length-copied :
    (bytes v : Bytes) (w : ℕ) → w + length bytes ≤ length v → length (copy bytes w v) ≡ length v
unfolding copy
length-copied bytes v w k = omega (
  arith,
  length-append (take w v) (bytes ++ drop (w + length bytes) v),
  length-append bytes (drop (w + length bytes) v),
  length-take w v,
  length-drop (w + length bytes) v,
)
