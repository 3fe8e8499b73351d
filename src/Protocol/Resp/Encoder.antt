-- ===== src/Protocol/Resp/Encoder.antt =====
-- src/protocol/resp.cpp: RespEncoder. `format_double` prints through std::snprintf and is left out.
use concurrent_cache.Prelude.{
  Bool, true, false, ◌&&◌, ◌||◌, List, [], ◌∷◌, ◌++◌, ◌==◌, if◌then◌else◌, length, ℤ,
}
use concurrent_cache.Text.{Bytes, codes}
use concurrent_cache.Text.Decimal.{to_string, to_string_ℤ}

abbrev pub crlf : Bytes
crlf = 13 ∷ 10 ∷ []

unfoldable pub encode_simple_string : Bytes → Bytes
encode_simple_string s = b'+' ∷ (s ++ crlf)

-- `err.rfind(prefix, 0) == 0`
unfoldable pub starts_with : Bytes → Bytes → Bool
starts_with [] s = true
starts_with (a ∷ t) [] = false
starts_with (a ∷ t) (b ∷ s) = a == b && starts_with t s

-- An error message with its class: `ERR ` is put in front where none stands.
unfoldable pub classed : Bytes → Bytes
unfolding starts_with
classed err =
    if starts_with (codes "WRONGTYPE") err || starts_with (codes "ERR ") err
    then err
    else codes "ERR " ++ err

unfoldable pub encode_error : Bytes → Bytes
unfolding classed
encode_error err = b'-' ∷ (classed err ++ crlf)

unfoldable pub encode_integer : ℤ → Bytes
encode_integer n = b':' ∷ (to_string_ℤ n ++ crlf)

unfoldable pub encode_bulk_string : Bytes → Bytes
encode_bulk_string s = b'$' ∷ (to_string (length s) ++ (crlf ++ (s ++ crlf)))

unfoldable pub encode_null : Bytes
encode_null = codes "$-1" ++ crlf

unfoldable pub encode_ok : Bytes
encode_ok = codes "+OK" ++ crlf

unfoldable pub encode_nil : Bytes
encode_nil = codes "$-1" ++ crlf

unfoldable pub encode_bulks : List Bytes → Bytes
unfolding encode_bulk_string
encode_bulks [] = []
encode_bulks (s ∷ ss) = encode_bulk_string s ++ encode_bulks ss

unfoldable pub encode_array : List Bytes → Bytes
unfolding encode_bulks
encode_array arr = b'*' ∷ (to_string (length arr) ++ (crlf ++ encode_bulks arr))

unfoldable pub encode_arrays : List (List Bytes) → Bytes
unfolding encode_array
encode_arrays [] = []
encode_arrays (a ∷ as') = encode_array a ++ encode_arrays as'

unfoldable pub encode_nested_array : List (List Bytes) → Bytes
unfolding encode_arrays
encode_nested_array nested = b'*' ∷ (to_string (length nested) ++ (crlf ++ encode_arrays nested))
