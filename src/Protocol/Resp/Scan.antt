-- ===== src/Protocol/Resp/Scan.antt =====
-- src/protocol/resp.cpp: the tests before parsing, on the readable bytes of the buffer.
use concurrent_cache.Prelude.{
  ℕ, zero, suc, ◌+◌, ◌*◌, Bool, true, false, ◌&&◌, ◌||◌, Option, none, some, [], ◌∷◌, ◌==◌, ltb,
  leb, if◌then◌else◌, length, take, drop, ◌>>=◌, when_some, ℤ, pos, negsuc, not,
}
use mathlib.Core.Option
use concurrent_cache.Text.{Bytes, codes}
use concurrent_cache.Text.Stoll.{stoll}

abbrev pub cr : ℕ
cr = 13

abbrev pub lf : ℕ
lf = 10

-- The place of the first line end.
unfoldable pub find_crlf : Bytes → Option ℕ
find_crlf [] = none
find_crlf (a ∷ []) = none
find_crlf (a ∷ b ∷ s) =
    let rest = find_crlf (b ∷ s) in if a == cr && b == lf then some 0 else Option.map suc rest

-- The first line, and what stands behind its end.
unfoldable pub cut_line : Bytes → Option (Bytes × Bytes)
cut_line s = do i ← find_crlf s; some (take i s, drop (i + 2) s)

-- parse_int64_safe: blanks and a plus sign in front are read, nothing behind.
abbrev pub only : Option (ℤ × Bytes) → Option ℤ
only none = none
only (some (v, [])) = some v
only (some (v, c ∷ s)) = none

unfoldable pub parse_int64_safe : Bytes → Option ℤ
parse_int64_safe s = only (stoll s)

abbrev pub max_bulk : ℕ
max_bulk = 512 * 1024 * 1024

abbrev pub max_array : ℕ
max_array = 1024 * 1024

-- A bulk string of which `rest` has to hold the content and a line end: what stands behind it.
unfoldable pub skip_bulk : ℤ → Bytes → Option Bytes
skip_bulk (negsuc zero) rest = some rest
skip_bulk (negsuc (suc n)) rest = none
skip_bulk (pos n) rest = if ltb (length rest) (n + 2) then none else some (drop (n + 2) rest)

-- The scan over a nested array: one level down for every `*`, one up for every line end, from `depth`
-- and the byte before on.
unfoldable pub skip_nested : ℕ → ℕ → Bytes → Option Bytes
skip_nested zero prev s = some s
skip_nested (suc depth) prev [] = none
skip_nested (suc depth) prev (c ∷ s) =
    skip_nested
      (if c == b'*' then suc (suc depth) else if c == lf && prev == cr then depth else suc depth) c
      s

-- One element of an array.
unfoldable pub skip_element : Bytes → Option Bytes
skip_element [] = none
skip_element (c ∷ s) =
    if c == b'+' || c == b'-' || c == b':'
    then (do (line, rest) ← cut_line s; some rest)
    else if c == b'$'
    then (do (line, rest) ← cut_line s; n ← parse_int64_safe line; skip_bulk n rest)
    else if c == b'*'
    then skip_nested 1 0 (c ∷ s)
    else none

unfoldable pub skip_elements : ℕ → Bytes → Option Bytes
skip_elements zero s = some s
skip_elements (suc n) s = do rest ← skip_element s; skip_elements n rest

abbrev pub is_there : Option Bytes → Bool
is_there none = false
is_there (some s) = true

unfoldable pub complete_bulk : Option ℤ → Bytes → Bool
complete_bulk none rest = false
complete_bulk (some (negsuc zero)) rest = true
complete_bulk (some (negsuc (suc n))) rest = false
complete_bulk (some (pos n)) rest = if ltb max_bulk n then false else leb (n + 2) (length rest)

unfoldable pub complete_array : Option ℤ → Bytes → Bool
complete_array none rest = false
complete_array (some (negsuc n)) rest = false
complete_array (some (pos zero)) rest = true
complete_array (some (pos (suc n))) rest =
    if ltb max_array (suc n) then false else is_there (skip_elements (suc n) rest)

unfoldable pub complete_line : ℕ → Bytes × Bytes → Bool
complete_line c (line, rest) =
    if c == b'$'
    then complete_bulk (parse_int64_safe line) rest
    else if c == b'*'
    then complete_array (parse_int64_safe line) rest
    else c == b'+' || c == b'-' || c == b':'

unfoldable pub has_complete_command : Bytes → Bool
has_complete_command [] = false
has_complete_command (c ∷ s) =
    if ltb (length (c ∷ s)) 4 then false else when_some (cut_line s) false (complete_line c)

-- What `protocol_error_` is set to.
unfoldable pub header_error : ℕ → Option ℤ → Bytes
header_error c none = codes "invalid number in protocol header"
header_error c (some (negsuc zero)) = []
header_error c (some (negsuc (suc n))) = codes "invalid negative length"
header_error c (some (pos n)) =
    if c == b'$' && ltb max_bulk n
    then codes "bulk string length exceeds limit"
    else if c == b'*' && ltb max_array n
    then codes "array length exceeds limit"
    else []

abbrev pub is_type_byte : ℕ → Bool
is_type_byte c = c == b'+' || c == b'-' || c == b':' || c == b'$' || c == b'*'

unfoldable pub first_line_error : Bytes → Bytes
first_line_error [] = []
first_line_error (c ∷ s) =
    if not (is_type_byte c)
    then codes "unknown type byte"
    else if c == b'$' || c == b'*'
    then when_some (cut_line s) [] (λ l. header_error c (parse_int64_safe l.0))
    else []
