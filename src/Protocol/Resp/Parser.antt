-- ===== src/Protocol/Resp/Parser.antt =====
-- src/protocol/resp.cpp: RespParser. The buffer stands as its readable bytes; `skip` drops from them
-- (Network/Buffer/Queue shows that of `retrieve`). DepthGuard gives the count back on every way out,
-- so the levels that are left are an argument.
pub mod Loop
use concurrent_cache.Prelude.{
  ℕ, zero, suc, ◌+◌, ◌-◌, Bool, true, false, ◌||◌, Option, none, some, List, [], ◌∷◌, ◌++◌, ◌==◌,
  ltb, if◌then◌else◌, length, take, drop, ℤ, pos, negsuc, not,
}
use concurrent_cache.Text.{Bytes, codes}
use concurrent_cache.Text.Stoll.{stoll}
use concurrent_cache.Protocol.Resp.{
  RespValue, simple_string, error, integer, bulk_string, array, RespValues, no_values, value,
}
use concurrent_cache.Protocol.Resp.Scan.{
  cut_line, parse_int64_safe, has_complete_command, first_line_error,
}

-- error_msg_ and protocol_error_
pub record RespParser : Type 0 where
  pub error_msg : Bytes
  pub protocol_error : Bytes

abbrev pub new_parser : RespParser
new_parser = record { error_msg = []; protocol_error = [] }

unfoldable pub reset : RespParser → RespParser
reset p = record p { error_msg = [] }

-- An error that stands is kept, and one that is found is noted.
abbrev pub keep_error : RespParser → Bytes → Bytes → RespParser × Bool
keep_error p (c ∷ standing) found = (p, true)
keep_error p [] [] = (p, false)
keep_error p [] (c ∷ found) = (record p { protocol_error = c ∷ found }, true)

unfoldable pub has_protocol_error : RespParser → Bytes → RespParser × Bool
has_protocol_error p s = keep_error p p.protocol_error (first_line_error s)

-- The parser, the bytes left, and the value that was read.
abbrev pub Outcome : Type 0 → Type 0
Outcome A = RespParser × Bytes × Option A

unfoldable pub fail : {A : Type 0} → RespParser → Bytes → Bytes → Outcome A
fail p s msg = (record p { error_msg = msg }, s, none)

-- parse_simple_string and parse_error: what stands behind the type byte `c`.
unfoldable pub parse_line : (Bytes → RespValue) → Bytes → RespParser → ℕ → Bytes → Outcome RespValue
unfolding fail
parse_line made msg p c s = elim (cut_line s) [
  | none ↦ fail p (c ∷ s) msg
  | some (line, rest) ↦ (p, rest, some (made line))
]

unfoldable pub parse_integer : RespParser → ℕ → Bytes → Outcome RespValue
unfolding fail
parse_integer p c s = elim (cut_line s) [
  | none ↦ fail p (c ∷ s) (codes "Integer missing CRLF")
  | some (line, rest) ↦ elim (stoll line) [
    | none ↦ fail p (c ∷ s) (codes "Invalid integer: " ++ line)
    | some (v, behind) ↦ (p, rest, some (integer v))
  ]
]

-- The content behind a length line.
unfoldable pub bulk_content : RespParser → Bytes → Option ℤ → Bytes → Outcome RespValue
unfolding fail
bulk_content p s none rest = fail p s (codes "Invalid bulk string length")
bulk_content p s (some (negsuc zero)) rest = (p, rest, some (bulk_string []))
bulk_content p s (some (negsuc (suc n))) rest = fail p s (codes "Invalid bulk string length")
bulk_content p s (some (pos n)) rest =
    if ltb (length rest) (n + 2)
    then fail p s (codes "Bulk string incomplete")
    else (p, drop (n + 2) rest, some (bulk_string (take n rest)))

unfoldable pub parse_bulk_string : RespParser → ℕ → Bytes → Outcome RespValue
unfolding fail bulk_content
parse_bulk_string p c s = elim (cut_line s) [
  | none ↦ fail p (c ∷ s) (codes "Bulk string missing length CRLF")
  | some (line, rest) ↦ bulk_content p (c ∷ s) (parse_int64_safe line) rest
]

abbrev pub Reader : Type 0
Reader = RespParser → Bytes → Outcome RespValue

-- The values read so far are lost when one fails.
abbrev pub and_value :
    Outcome RespValue → (RespParser → Bytes → RespValue → Outcome RespValues) → Outcome RespValues
and_value (p, s, none) f = (p, s, none)
and_value (p, s, some v) f = f p s v

abbrev pub with_value : RespValue → Outcome RespValues → Outcome RespValues
with_value v (p, s, none) = (p, s, none)
with_value v (p, s, some vs) = (p, s, some (value v vs))

unfoldable pub parse_elements : Reader → ℕ → RespParser → Bytes → Outcome RespValues
unfolding fail
parse_elements one zero p s = (p, s, some no_values)
parse_elements one (suc n) p [] = fail p [] (codes "Array element missing")
parse_elements one (suc n) p (c ∷ s) =
    and_value (one p (c ∷ s)) (λ p' s' v. with_value v (parse_elements one n p' s'))

-- The elements behind a count line; the line is consumed first.
unfoldable pub array_content : Reader → RespParser → ℤ → Bytes → Outcome RespValues
unfolding fail parse_elements
array_content one p (negsuc zero) rest = (p, rest, some no_values)
array_content one p (negsuc (suc n)) rest = fail p rest (codes "Invalid array count")
array_content one p (pos n) rest = parse_elements one n p rest

abbrev pub as_one : Outcome RespValues → Outcome RespValue
as_one (p, s, none) = (p, s, none)
as_one (p, s, some vs) = (p, s, some (array vs))

unfoldable pub parse_array : Reader → RespParser → ℕ → Bytes → Outcome RespValue
unfolding fail array_content
parse_array one p c s = elim (cut_line s) [
  | none ↦ fail p (c ∷ s) (codes "Array missing count CRLF")
  | some (line, rest) ↦ elim (parse_int64_safe line) [
    | none ↦ fail p (c ∷ s) (codes "Invalid array count")
    | some n ↦ as_one (array_content one p n rest)
  ]
]

-- array_depth_ has passed kMaxNestingDepth.
unfoldable pub too_deep : RespParser → ℕ → Bytes → Outcome RespValue
too_deep p c s = (
  record p {
    error_msg = codes "Array nesting exceeds limit";
    protocol_error = codes "Array nesting exceeds limit";
  },
  c ∷ s,
  none,
)

unfoldable pub by_type :
    (RespParser → ℕ → Bytes → Outcome RespValue) → RespParser → ℕ → Bytes → Outcome RespValue
unfolding fail parse_line parse_integer parse_bulk_string
by_type arrays p c s =
    if c == b'+'
    then parse_line simple_string (codes "Simple string missing CRLF") p c s
    else if c == b'-'
    then parse_line error (codes "Error message missing CRLF") p c s
    else if c == b':'
    then parse_integer p c s
    else if c == b'$'
    then parse_bulk_string p c s
    else if c == b'*'
    then arrays p c s
    else fail p (c ∷ s) (codes "Unknown RESP type: " ++ c ∷ [])

-- parse_one, with `levels` arrays that may still open.
unfoldable pub parse_one : ℕ → Reader
unfolding fail too_deep parse_array by_type
parse_one levels p [] = fail p [] (codes "Buffer is empty")
parse_one zero p (c ∷ s) = by_type too_deep p c s
parse_one (suc levels) p (c ∷ s) = by_type (parse_array (parse_one levels)) p c s

abbrev pub max_nesting_depth : ℕ
max_nesting_depth = 32

abbrev pub next_command :
    (RespParser → Bytes → RespParser × Bytes × List RespValue)
    → Outcome RespValue
    → RespParser × Bytes × List RespValue
next_command rest (p, s, none) = (p, s, [])
next_command rest (p, s, some v) = (let (p', s', vs) = rest p s in (p', s', v ∷ vs))

-- The loop of `parse`; every command takes a byte, so that the number of bytes is fuel enough.
unfoldable pub parse_loop : ℕ → RespParser → Bytes → RespParser × Bytes × List RespValue
parse_loop zero p s = (p, s, [])
parse_loop (suc fuel) p s = elim (has_complete_command s) [
  | true ↦ next_command (parse_loop fuel) (parse_one max_nesting_depth p s)
  | false ↦ (p, s, [])
]

unfoldable pub parse : RespParser → Bytes → RespParser × Bytes × List RespValue
unfolding parse_loop
parse p s = parse_loop (length s) p s
