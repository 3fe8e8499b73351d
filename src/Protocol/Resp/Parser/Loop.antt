-- ===== src/Protocol/Resp/Parser/Loop.antt =====
-- Every value that is read takes bytes away, so the loop of `parse` ends.
use concurrent_cache.Prelude.{
  ℕ, zero, suc, ◌+◌, ◌<◌, ◌≤◌, ◌≡◌, refl, Bool, true, false, Option, none, some, List, [], ◌∷◌,
  ◌++◌, arith, ◌==◌, ltb, if◌then◌else◌, length, length-drop, inl, inr, Bool-cases, Option-cases, ℤ,
  pos, negsuc,
}
use concurrent_cache.Text.{Bytes, codes}
use concurrent_cache.Text.Stoll.{stoll}
use concurrent_cache.Protocol.Resp.{RespValue, RespValues, simple_string, error}
use concurrent_cache.Protocol.Resp.Scan.{
  find_crlf, cut_line, parse_int64_safe, has_complete_command,
}
use concurrent_cache.Protocol.Resp.Parser.{
  RespParser, Outcome, Reader, fail, parse_line, parse_integer, parse_bulk_string, bulk_content,
  parse_elements, array_content, parse_array, too_deep, by_type, parse_one, parse_loop, parse,
  max_nesting_depth, next_command, and_value, with_value, as_one,
}

-- Nothing comes back to the bytes, and a value that is read has taken one.
abbrev pub Takes : {A : Type 0} → Bytes → Outcome A → Type 0
Takes s (p, rest, none) = length rest ≤ length s
Takes s (p, rest, some v) = length rest < length s

-- The weaker bound, for what may be empty.
abbrev Leaves : {A : Type 0} → Bytes → Outcome A → Type 0
Leaves s (p, rest, r) = length rest ≤ length s

cut_line-length : (s line rest : Bytes) → cut_line s ≡ some (line, rest) → length rest ≤ length s
unfolding cut_line
cut_line-length s line rest h = elim (Option-cases (find_crlf s)) [
  | inl e ↦ absurd (ground (arith, e, h))
  | inr (i, e) ↦ ground (arith, e, h, length-drop (i + 2) s)
]

parse_line-Takes :
    (made : Bytes → RespValue) (msg : Bytes) (p : RespParser) (c : ℕ) (s : Bytes)
    → Takes (c ∷ s) (parse_line made msg p c s)
unfolding parse_line fail
parse_line-Takes made msg p c s = elim (Option-cases (cut_line s)) [
  | inl e ↦ rw (e, parse_line) (omega arith)
  | inr ((line, rest), e) ↦ rw (e, parse_line) (omega (arith, cut_line-length s line rest e))
]

parse_integer-Takes : (p : RespParser) (c : ℕ) (s : Bytes) → Takes (c ∷ s) (parse_integer p c s)
unfolding parse_integer fail
parse_integer-Takes p c s = elim (Option-cases (cut_line s)) [
  | inl e ↦ rw (e, parse_integer) (omega arith)
  | inr ((line, rest), e) ↦ elim (Option-cases (stoll line)) [
    | inl d ↦ rw (e, parse_integer, d) (omega arith)
    | inr ((v, behind), d) ↦ rw (e, parse_integer, d) (omega (arith, cut_line-length s line rest e))
  ]
]

bulk_content-Takes :
    (p : RespParser) (s : Bytes) (n : Option ℤ) (rest : Bytes)
    → length rest < length s
    → Takes s (bulk_content p s n rest)
unfolding bulk_content fail
bulk_content-Takes p s none rest h = omega arith
bulk_content-Takes p s (some (negsuc zero)) rest h = h
bulk_content-Takes p s (some (negsuc (suc n))) rest h = omega arith
bulk_content-Takes p s (some (pos n)) rest h = elim (Bool-cases (ltb (length rest) (n + 2))) [
  | inl e ↦ rw e (omega arith)
  | inr e ↦ rw e (omega (arith, length-drop (n + 2) rest))
]

parse_bulk_string-Takes :
    (p : RespParser) (c : ℕ) (s : Bytes) → Takes (c ∷ s) (parse_bulk_string p c s)
unfolding parse_bulk_string fail
parse_bulk_string-Takes p c s = elim (Option-cases (cut_line s)) [
  | inl e ↦ rw (e, parse_bulk_string) (omega arith)
  | inr ((line, rest), e) ↦
      rw (e, parse_bulk_string)
        (bulk_content-Takes p (c ∷ s) (parse_int64_safe line) rest
          (omega (arith, cut_line-length s line rest e)))
]

with_value-Leaves :
    (v : RespValue) (s : Bytes) (o : Outcome RespValues) → Leaves s o → Leaves s (with_value v o)
with_value-Leaves v s (p, rest, none) h = h
with_value-Leaves v s (p, rest, some vs) h = h

and_value-Leaves :
    (s : Bytes) (o : Outcome RespValue) (f : RespParser → Bytes → Outcome RespValues)
    → Takes s o
    → ((p : RespParser) (s' : Bytes) → Leaves s' (f p s'))
    → Leaves s (and_value o (λ p' s' v. with_value v (f p' s')))
and_value-Leaves s (p, rest, none) f h g = h
and_value-Leaves s (p, rest, some v) f h g =
    omega (arith, with_value-Leaves v rest (f p rest) (g p rest))

parse_elements-Leaves :
    (one : Reader) (n : ℕ) (p : RespParser) (s : Bytes)
    → ((p' : RespParser) (s' : Bytes) → Takes s' (one p' s'))
    → Leaves s (parse_elements one n p s)
unfolding parse_elements fail
parse_elements-Leaves one zero p s h = omega arith
parse_elements-Leaves one (suc n) p [] h = omega arith
parse_elements-Leaves one (suc n) p (c ∷ s) h =
    and_value-Leaves (c ∷ s) (one p (c ∷ s)) (parse_elements one n) (h p (c ∷ s))
      (λ p' s'. parse_elements-Leaves one n p' s' h)

as_one-Takes : (c : ℕ) (s : Bytes) (o : Outcome RespValues) → Leaves s o → Takes (c ∷ s) (as_one o)
as_one-Takes c s (p, rest, none) h = omega arith
as_one-Takes c s (p, rest, some vs) h = omega arith

array_content-Leaves :
    (one : Reader) (p : RespParser) (n : ℤ) (s : Bytes)
    → ((p' : RespParser) (s' : Bytes) → Takes s' (one p' s'))
    → Leaves s (array_content one p n s)
unfolding array_content fail
array_content-Leaves one p (negsuc zero) s h = omega arith
array_content-Leaves one p (negsuc (suc n)) s h = omega arith
array_content-Leaves one p (pos n) s h = parse_elements-Leaves one n p s h

Takes-longer : (s t : Bytes) (o : Outcome RespValue) → length s ≤ length t → Takes s o → Takes t o
Takes-longer s t (p, rest, none) le h = omega arith
Takes-longer s t (p, rest, some v) le h = omega arith

parse_array-Takes :
    (one : Reader) (p : RespParser) (c : ℕ) (s : Bytes)
    → ((p' : RespParser) (s' : Bytes) → Takes s' (one p' s'))
    → Takes (c ∷ s) (parse_array one p c s)
unfolding parse_array fail
parse_array-Takes one p c s h = elim (Option-cases (cut_line s)) [
  | inl e ↦ rw (e, parse_array) (omega arith)
  | inr ((line, rest), e) ↦ elim (Option-cases (parse_int64_safe line)) [
    | inl d ↦ rw (e, parse_array, d) (omega arith)
    | inr (n, d) ↦
        rw (e, parse_array, d)
          (Takes-longer (c ∷ rest) (c ∷ s) (as_one (array_content one p n rest))
            (omega (arith, cut_line-length s line rest e))
            (as_one-Takes c rest (array_content one p n rest)
              (array_content-Leaves one p n rest h)))
  ]
]

either :
    (s : Bytes) (b : Bool) (x y : Outcome RespValue)
    → Takes s x
    → Takes s y
    → Takes s (if b then x else y)
either s true x y h k = h
either s false x y h k = k

by_type-Takes :
    (arrays : RespParser → ℕ → Bytes → Outcome RespValue) (p : RespParser) (c : ℕ) (s : Bytes)
    → Takes (c ∷ s) (arrays p c s)
    → Takes (c ∷ s) (by_type arrays p c s)
unfolding by_type fail
by_type-Takes arrays p c s h =
    either (c ∷ s) (c == b'+') _ _
      (parse_line-Takes simple_string (codes "Simple string missing CRLF") p c s)
      (either (c ∷ s) (c == b'-') _ _
        (parse_line-Takes error (codes "Error message missing CRLF") p c s)
        (either (c ∷ s) (c == b':') _ _ (parse_integer-Takes p c s) (
          either (c ∷ s) (c == b'$') _ _ (parse_bulk_string-Takes p c s) (
            either (c ∷ s) (c == b'*') _ (fail p (c ∷ s) (codes "Unknown RESP type: " ++ c ∷ [])) h
              (omega arith)))))

-- A value that is read takes at least one byte from the buffer, and no call of the parser puts
-- bytes back, however the value is nested.
pub parse_one-Takes : (levels : ℕ) (p : RespParser) (s : Bytes) → Takes s (parse_one levels p s)
unfolding parse_one too_deep fail
parse_one-Takes zero p [] = omega arith
parse_one-Takes (suc levels) p [] = omega arith
parse_one-Takes zero p (c ∷ s) = by_type-Takes too_deep p c s (omega arith)
parse_one-Takes (suc levels) p (c ∷ s) =
    by_type-Takes (parse_array (parse_one levels)) p c s
      (parse_array-Takes (parse_one levels) p c s (parse_one-Takes levels))

next_command-Takes :
    (s : Bytes) (f g : RespParser → Bytes → RespParser × Bytes × List RespValue)
    (o : Outcome RespValue)
    → Takes s o
    → ((p : RespParser) (rest : Bytes) → length rest < length s → f p rest ≡ g p rest)
    → next_command f o ≡ next_command g o
next_command-Takes s f g (p, rest, none) h e = refl
next_command-Takes s f g (p, rest, some v) h e = rw (e p rest h) refl

parse_loop_fuel :
    (m n : ℕ) (p : RespParser) (s : Bytes)
    → length s ≤ m
    → length s ≤ n
    → parse_loop m p s ≡ parse_loop n p s
unfolding parse_loop has_complete_command
parse_loop_fuel zero zero p s h k = refl
parse_loop_fuel zero (suc n) p [] h k = refl
parse_loop_fuel (suc m) zero p [] h k = refl
parse_loop_fuel zero (suc n) p (c ∷ s) h k = absurd (omega arith)
parse_loop_fuel (suc m) zero p (c ∷ s) h k = absurd (omega arith)
parse_loop_fuel (suc m) (suc n) p s h k = elim (Bool-cases (has_complete_command s)) [
  | inl e ↦
      rw (e, parse_loop)
        (next_command-Takes s (parse_loop m) (parse_loop n) (parse_one max_nesting_depth p s)
          (parse_one-Takes max_nesting_depth p s)
          (λ p' rest lt. parse_loop_fuel m n p' rest (omega arith) (omega arith)))
  | inr e ↦ rw (e, parse_loop) refl
]

-- The loop of `parse` ends by itself: with any fuel from the number of readable bytes on, it does
-- what `parse` does.
pub parse_loop-parse :
    (fuel : ℕ) (p : RespParser) (s : Bytes) → length s ≤ fuel → parse_loop fuel p s ≡ parse p s
unfolding parse
parse_loop-parse fuel p s h = parse_loop_fuel fuel (length s) p s h (omega arith)
