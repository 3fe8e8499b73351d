-- ===== src/Cache/ExpireDict/Sampling.antt =====
-- What the periodic sweep is given to look at.
use Prim.Native.Nat.{min, max}
use concurrent_cache.Prelude.{
  ℕ, zero, suc, ◌*◌, ◌<◌, ◌≤◌, ◌≡◌, refl, Bool, true, false, some, List, [], ◌∷◌, arith, leb, ◌==◌,
  if◌then◌else◌, length, take, get_elem?, Option-cases, inl, inr, ap,
}
use concurrent_cache.Text.{Bytes, str_eq_iff}
use concurrent_cache.Table.{contains, keys}
use concurrent_cache.Cache.ExpireDict.{ExpireMap, get_candidates, sample}

-- Every key of the list has a record.
abbrev pub AllKeys : ExpireMap → List Bytes → Type 0
AllKeys m [] = Unit {0}
AllKeys m (k ∷ ks) = (contains k m ≡ true) × AllKeys m ks

contains-keys :
    (m : ExpireMap) (i : ℕ) (k : Bytes) → get_elem? (keys m) i ≡ some k → contains k m ≡ true
unfolding contains
contains-keys [] i k e = cc
contains-keys ((j, t) ∷ m) zero k e = ground (arith, str_eq_iff j k)
contains-keys ((j, t) ∷ m) (suc i) k e = ground (arith, contains-keys m i k)

take-AllKeys :
    (m : ExpireMap) (n : ℕ) (ks : List Bytes)
    → ((i : ℕ) (k : Bytes) → get_elem? ks i ≡ some k → contains k m ≡ true)
    → AllKeys m (take n ks)
take-AllKeys m zero ks h = tt
take-AllKeys m (suc n) [] h = tt
take-AllKeys m (suc n) (k ∷ ks) h = (h 0 k refl, take-AllKeys m n ks (λ i j e. h (suc i) j e))

sample-AllKeys :
    (m : ExpireMap) (draw : ℕ → ℕ) (left k last : ℕ) → AllKeys m (sample (keys m) draw left k last)
unfolding sample
sample-AllKeys m draw zero k last = tt
sample-AllKeys m draw (suc left) k last =
    elim (Option-cases (get_elem? (keys m) (max (draw k) last))) [
      | inl e ↦ rw (e, sample) tt
      | inr (j, e) ↦
          rw (e, sample)
            (
              contains-keys m (max (draw k) last) j e,
              sample-AllKeys m draw left (suc k) (max (draw k) last),
            )
    ]

get_elem?_in_range :
    (ks : List Bytes) (i : ℕ) → i < length ks → (k : Bytes) × (get_elem? ks i ≡ some k)
get_elem?_in_range [] i h = absurd (omega arith)
get_elem?_in_range (k ∷ ks) zero h = (k, refl)
get_elem?_in_range (k ∷ ks) (suc i) h = get_elem?_in_range ks i (omega arith)

length-sample :
    (ks : List Bytes) (draw : ℕ → ℕ) (left k last : ℕ)
    → ((i : ℕ) → draw i < length ks)
    → last < length ks
    → length (sample ks draw left k last) ≡ left
unfolding sample
length-sample ks draw zero k last h l = refl
length-sample ks draw (suc left) k last h l =
    let target = max (draw k) last in
    let within : target < length ks = omega (arith, h k) in
    let (j, e) = get_elem?_in_range ks target within in
    rw (e, sample) (ap suc (length-sample ks draw left (suc k) target h within))

length-keys : (m : ExpireMap) → length (keys m) ≡ length m
length-keys [] = refl
length-keys ((k, t) ∷ m) = ap suc (length-keys m)

length-take-min : (n : ℕ) (ks : List Bytes) → n ≤ length ks → length (take n ks) ≡ n
length-take-min zero ks h = refl
length-take-min (suc n) [] h = absurd (omega arith)
length-take-min (suc n) (k ∷ ks) h = ap suc (length-take-min n ks (omega arith))

AllKeys-if :
    (m : ExpireMap) (b : Bool) (xs ys : List Bytes)
    → AllKeys m xs
    → AllKeys m ys
    → AllKeys m (if b then xs else ys)
AllKeys-if m true xs ys h k = h
AllKeys-if m false xs ys h k = k

-- Every candidate has a record, whatever is drawn.
pub get_candidates-AllKeys :
    (m : ExpireMap) (n : ℕ) (draw : ℕ → ℕ) → AllKeys m (get_candidates m n draw)
unfolding get_candidates
get_candidates-AllKeys m n draw = AllKeys-if m (length m == 0) [] _ tt (
    AllKeys-if m (leb (length m) (min n (length m) * 4)) _ _
      (take-AllKeys m (min n (length m)) (keys m) (contains-keys m))
      (sample-AllKeys m draw (min n (length m)) 0 0))

-- As many candidates come back as were asked for, or as there are records, if the draws lie among
-- the positions of the dictionary.
pub length-get_candidates :
    (m : ExpireMap) (n : ℕ) (draw : ℕ → ℕ)
    → ((i : ℕ) → draw i < length m)
    → length (get_candidates m n draw) ≡ min n (length m)
unfolding get_candidates
length-get_candidates m n draw h = ground (
  arith,
  h 0,
  length-keys m,
  length-take-min (min n (length m)) (keys m),
  length-sample (keys m) draw (min n (length m)) 0 0 (rw length-keys h),
)
