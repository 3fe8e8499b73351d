-- ===== src/Datatype/Payload/Records.antt =====
-- A record is read back, whatever stands before and behind it.
use concurrent_cache.Prelude.{
  ℕ, ◌+◌, ◌-◌, ◌^◌, ◌<◌, ◌≤◌, ◌≡◌, refl, sym, ap, ◌∙◌, some, List, [], ◌∷◌, ◌++◌, arith, length,
  length-append, take, drop, append_assoc, append-nil, take-length-append, drop-length-append,
  drop-drop,
}
use mathlib.Core.Option
use mathlib.Core.Path.{subst, ap₂}
use concurrent_cache.Text.{Bytes, find_char, substr, index_of, index_of-append, Lacks}
use concurrent_cache.Text.Decimal.{
  to_string, from_chars_ull, whole, from_chars_ull-to_string, Lacks-to_string,
}
use concurrent_cache.Datatype.Payload.{
  newline, record_of, records, read_record, read_count, read_records,
}

-- From `pos` on the buffer holds `t`.
pub record At (buf : Bytes) (pos : ℕ) (t : Bytes) : Type 0 where
  pub rest : drop pos buf ≡ t
  pub size : length buf ≡ pos + length t

pub At-zero : (buf : Bytes) → At buf 0 buf
At-zero buf = record { rest = refl; size = omega arith }

pub At-append :
    (buf : Bytes) (pos : ℕ) (s t : Bytes) → At buf pos (s ++ t) → At buf (pos + length s) t
At-append buf pos s t h = record {
  rest = sym (drop-drop pos (length s) buf) ∙ ap (drop (length s)) h.rest ∙ drop-length-append s t;
  size = omega (arith, h.size, length-append s t);
}

whole-to_string : (n : ℕ) → n < 2 ^ 64 → whole (from_chars_ull (to_string n)) ≡ some n
unfolding whole
whole-to_string n h =
    ap (λ (s : Bytes). whole (from_chars_ull s)) (sym (append-nil (to_string n)))
    ∙ ap whole (from_chars_ull-to_string n [] h refl)

-- Finding the end of the head, and reading the head.
find_char-At :
    (buf : Bytes) (pos : ℕ) (s t : Bytes)
    → Lacks newline s
    → At buf pos (s ++ newline ∷ t)
    → (find_char buf newline pos ≡ some (pos + length s))
      × (substr buf pos (pos + length s - pos) ≡ s)
unfolding find_char substr
find_char-At buf pos s t l h = (
  ap (λ (u : Bytes). Option.map (λ i. pos + i) (index_of newline u)) h.rest
      ∙ ap (Option.map (λ i. pos + i)) (index_of-append newline s t l),
  ap (λ (u : Bytes). take (pos + length s - pos) u) h.rest
      ∙ ap (λ n. take n (s ++ newline ∷ t)) {y = length s} (omega arith)
      ∙ take-length-append s (newline ∷ t),
)

read_record_steps :
    (buf : Bytes) (pos nl len : ℕ)
    → find_char buf newline pos ≡ some nl
    → whole (from_chars_ull (substr buf pos (nl - pos))) ≡ some len
    → nl + 1 + len ≤ length buf
    → read_record buf pos ≡ some (substr buf (nl + 1) len, nl + 1 + len)
unfolding read_record
read_record_steps buf pos nl len e f le = rw (e, f) (ground arith)

module _ (buf : Bytes) (pos : ℕ) (p t : Bytes) (fits : length buf < 2 ^ 64)
    (h : At buf pos (record_of p ++ t)) where
  abbrev head : Bytes
  head = to_string (length p)

  At-head : At buf pos (head ++ newline ∷ (p ++ t))
  unfolding record_of
  At-head = subst (At buf pos) (append_assoc head (newline ∷ p) t) h

  At-bytes : At buf (pos + length head + 1) (p ++ t)
  At-bytes =
      At-append buf (pos + length head) (newline ∷ []) (p ++ t)
        (At-append buf pos head (newline ∷ (p ++ t)) At-head)

  place : (pos + length head + 1) + length p ≡ pos + length (record_of p)
  unfolding record_of
  place = omega (arith, length-append head (newline ∷ p))

  read_bytes : substr buf (pos + length head + 1) (length p) ≡ p
  unfolding substr
  read_bytes = ap (take (length p)) At-bytes.rest ∙ take-length-append p t

  sizes : pos + length head + 1 + length p + length t ≡ length buf
  sizes = omega (arith, At-bytes.size, length-append p t)

  -- The record at `pos` is read, and the position behind it is returned.
  pub read_record-record_of :
      (read_record buf pos ≡ some (p, pos + length (record_of p)))
      × At buf (pos + length (record_of p)) t
  read_record-record_of =
      let found =
        find_char-At buf pos head (p ++ t) (Lacks-to_string newline (length p) refl) At-head in
      (
        read_record_steps buf pos (pos + length head) (length p) found.0
              (ap (λ (s : Bytes). whole (from_chars_ull s)) found.1
                ∙ whole-to_string (length p) (omega (arith, sizes)))
              (omega (arith, sizes))
            ∙ ap₂ (λ s n. some (s, n)) read_bytes place,
        subst (λ n. At buf n t) place (At-append buf (pos + length head + 1) p t At-bytes),
      )

  -- So is a count.
  pub read_count-record_of :
      (n : ℕ)
      → p ≡ to_string n
      → n < 2 ^ 64
      → read_count buf pos ≡ some (n, pos + length (record_of p))
  unfolding read_count
  read_count-record_of n e lt = rw (read_record-record_of.0) (rw e (rw (whole-to_string n lt)))

record-pos : (p : Bytes) → 1 ≤ length (record_of p)
unfolding record_of
record-pos p = omega (arith, length-append (to_string (length p)) (newline ∷ p))

-- There are no more records than bytes.
pub length-records : (es : List Bytes) → length es ≤ length (records es)
length-records [] = omega arith
length-records (e ∷ es) =
    omega (arith, length-append (record_of e) (records es), record-pos e, length-records es)

-- The records of a list are read back in order, up to the end of the last.
pub read_records-records :
    (buf : Bytes) (pos : ℕ) (es : List Bytes)
    → length buf < 2 ^ 64
    → At buf pos (records es)
    → read_records buf (length es) pos ≡ some (es, length buf)
unfolding read_records
read_records-records buf pos [] fits h = ap (λ n. some ([], n)) (omega (arith, h.size))
read_records-records buf pos (e ∷ es) fits h =
    let first = read_record-record_of buf pos e (records es) fits h in
    rw (first.0, read_records-records buf (pos + length (record_of e)) es fits first.1)
