-- ===== src/Protocol/Resp/Replies.antt =====
-- A reply, as the server encodes it, is read back by the same parser.
use concurrent_cache.Prelude.{
  ℕ, suc, ◌^◌, ◌<◌, ◌≤◌, ◌≡◌, refl, sym, ap, ◌∙◌, some, List, [], ◌∷◌, ◌++◌, append_assoc,
  append-nil, arith, length, ℤ, if◌then◌else◌, ◌||◌, take,
}
use concurrent_cache.Text.{Bytes, Lacks, codes, str_eq}
use concurrent_cache.Text.Decimal.{scan, to_string, to_string_ℤ}
use concurrent_cache.Text.Stoll.{stoll, skip_space, after_space, signed_digits, stoll-to_string_ℤ}
use concurrent_cache.Base.IntParse.{FitsInt64}
use concurrent_cache.Protocol.Resp.{
  RespValue, RespValues, no_values, value, simple_string, error, integer, bulk_string, array,
}
use concurrent_cache.Protocol.Resp.Scan.{cut_line, find_crlf, parse_int64_safe, cr, lf, max_array}
use concurrent_cache.Protocol.Resp.Lines.{
  cut_line-line, Lacks-to_string_ℤ, parse_int64_safe-to_string,
}
use concurrent_cache.Protocol.Resp.Encoder.{
  encode_simple_string, encode_error, encode_ok, encode_null, encode_nil, classed, starts_with,
  encode_integer, encode_bulk_string, encode_array, encode_arrays, encode_nested_array,
}
use concurrent_cache.Protocol.Resp.Parser.{
  RespParser, parse_one, by_type, parse_bulk_string, bulk_content, parse_line, parse_integer,
  parse_elements, array_content, parse_array,
}
use concurrent_cache.Protocol.Resp.Arrays.{
  bulks, AllShort, AllSendable, cut_length, parse_one-bulk, encode_bulk_string-rest,
  parse_one-encode_array, parse_one-array, encode_array-rest,
}

-- What the commands reply with.
pub data Reply : Type 0 where
  status : Bytes → Reply
  failure : Bytes → Reply
  number : ℤ → Reply
  text : Bytes → Reply
  texts : List Bytes → Reply
  tables : List (List Bytes) → Reply
  ok null nil : Reply

unfoldable pub encode : Reply → Bytes
encode (status s) = encode_simple_string s
encode (failure e) = encode_error e
encode (number n) = encode_integer n
encode (text s) = encode_bulk_string s
encode (texts a) = encode_array a
encode (tables as') = encode_nested_array as'
encode ok = encode_ok
encode null = encode_null
encode nil = encode_nil

abbrev pub arrays_of : List (List Bytes) → RespValues
arrays_of [] = no_values
arrays_of (a ∷ as') = value (array (bulks a)) (arrays_of as')

-- An error message that begins with neither of the two classes gets one.
abbrev pub with_class : Bytes → Bytes
with_class e =
    if str_eq (take 9 e) (codes "WRONGTYPE") || str_eq (take 4 e) (codes "ERR ")
    then e
    else codes "ERR " ++ e

starts_with-take : (t s : Bytes) → starts_with t s ≡ str_eq (take (length t) s) t
unfolding starts_with str_eq
starts_with-take [] s = refl
starts_with-take (a ∷ t) [] = refl
starts_with-take (a ∷ t) (b ∷ s) = ground (arith, starts_with-take t s)

classed-with_class : (e : Bytes) → classed e ≡ with_class e
unfolding classed
classed-with_class e =
    rw (starts_with-take (codes "WRONGTYPE") e, starts_with-take (codes "ERR ") e) refl

abbrev pub decoded : Reply → RespValue
decoded (status s) = simple_string s
decoded (failure e) = error (with_class e)
decoded (number n) = integer n
decoded (text s) = bulk_string s
decoded (texts a) = array (bulks a)
decoded (tables as') = array (arrays_of as')
decoded ok = simple_string (codes "OK")
decoded null = bulk_string []
decoded nil = bulk_string []

-- A line holds no carriage return, and lengths and numbers can be written.
abbrev pub IsSendable : Reply → Type 0
IsSendable (status s) = Lacks cr s
IsSendable (failure e) = Lacks cr (with_class e)
IsSendable (number n) = FitsInt64 n
IsSendable (text s) = length s < 2 ^ 63
IsSendable (texts a) = (length a ≤ max_array) × AllShort a
IsSendable (tables as') = (length as' ≤ max_array) × AllSendable as'
IsSendable ok = Unit {0}
IsSendable null = Unit {0}
IsSendable nil = Unit {0}

read_line :
    (made : Bytes → RespValue) (msg : Bytes) (p : RespParser) (c : ℕ) (s rest : Bytes)
    → Lacks cr s
    → parse_line made msg p c ((s ++ cr ∷ lf ∷ []) ++ rest) ≡ (p, rest, some (made s))
unfolding parse_line
read_line made msg p c s rest h =
    rw (append_assoc s (cr ∷ lf ∷ []) rest, cut_line-line s rest h, parse_line) refl

whole_number : (n : ℤ) → FitsInt64 n → stoll (to_string_ℤ n) ≡ some (n, [])
whole_number n h = ap stoll (sym (append-nil (to_string_ℤ n))) ∙ stoll-to_string_ℤ n [] h refl

read_integer :
    (p : RespParser) (n : ℤ) (rest : Bytes)
    → FitsInt64 n
    → parse_integer p b':' ((to_string_ℤ n ++ cr ∷ lf ∷ []) ++ rest) ≡ (p, rest, some (integer n))
unfolding parse_integer
read_integer p n rest h =
    rw
      (
        append_assoc (to_string_ℤ n) (cr ∷ lf ∷ []) rest,
        cut_line-line (to_string_ℤ n) rest (Lacks-to_string_ℤ n),
        parse_integer,
        whole_number n h,
      )
      refl

parse_elements-encode_arrays :
    (levels : ℕ) (p : RespParser) (as' : List (List Bytes)) (rest : Bytes)
    → AllSendable as'
    → parse_elements (parse_one (suc levels)) (length as') p (encode_arrays as' ++ rest)
      ≡ (p, rest, some (arrays_of as'))
unfolding parse_elements encode_arrays
parse_elements-encode_arrays levels p [] rest h = refl
parse_elements-encode_arrays levels p (a ∷ as') rest (few, short, h) =
    ap (λ z. parse_elements (parse_one (suc levels)) (suc (length as')) p z)
      (append_assoc (encode_array a) (encode_arrays as') rest)
    ∙ rw
        (
          encode_array-rest a (encode_arrays as' ++ rest),
          parse_one-array levels p a (encode_arrays as' ++ rest) few short,
          parse_elements-encode_arrays levels p as' rest h,
        )
        refl

encode_nested_array-rest :
    (as' : List (List Bytes)) (rest : Bytes)
    → encode_nested_array as' ++ rest
      ≡ b'*' ∷ (to_string (length as') ++ cr ∷ lf ∷ (encode_arrays as' ++ rest))
unfolding encode_nested_array
encode_nested_array-rest as' rest = simp append_assoc

read_tables :
    (levels : ℕ) (p : RespParser) (as' : List (List Bytes)) (rest : Bytes)
    → length as' ≤ max_array
    → AllSendable as'
    → parse_array
        (parse_one (suc levels))
        p
        b'*'
        (to_string (length as') ++ cr ∷ lf ∷ (encode_arrays as' ++ rest))
      ≡ (p, rest, some (array (arrays_of as')))
unfolding parse_array array_content
read_tables levels p as' rest few h =
    rw
      (
        cut_length (length as') (encode_arrays as' ++ rest),
        parse_array,
        parse_int64_safe-to_string (length as') (omega arith),
        parse_elements-encode_arrays levels p as' rest h,
      )
      refl

-- A length of -1 is read as an empty string.
read_nil :
    (levels : ℕ) (p : RespParser) (rest : Bytes)
    → parse_one (suc levels) p (codes "$-1\r\n" ++ rest) ≡ (p, rest, some (bulk_string []))
unfolding parse_one by_type parse_bulk_string cut_line find_crlf parse_int64_safe stoll skip_space
    after_space signed_digits scan bulk_content
read_nil levels p rest = refl

read_ok :
    (levels : ℕ) (p : RespParser) (rest : Bytes)
    → parse_one (suc levels) p (codes "+OK\r\n" ++ rest)
      ≡ (p, rest, some (simple_string (codes "OK")))
unfolding parse_one by_type parse_line cut_line find_crlf
read_ok levels p rest = refl

-- The parser reads a reply of any of the encoder's functions but format_double off the front of a
-- stream and leaves the rest, for text lines with no carriage return, 64-bit integers and lengths
-- within the limits. It gives back the value that was encoded, an error with its class, and for the
-- two nil replies the empty string, so it does not tell these from an empty text.
pub parse_one-encode :
    (levels : ℕ) (p : RespParser) (r : Reply) (rest : Bytes)
    → IsSendable r
    → parse_one (suc (suc levels)) p (encode r ++ rest) ≡ (p, rest, some (decoded r))
unfolding encode parse_one by_type encode_simple_string encode_error encode_integer encode_ok
    encode_null encode_nil
parse_one-encode levels p (status s) rest h = read_line _ _ p b'+' s rest h
parse_one-encode levels p (failure e) rest h =
    rw (classed-with_class e) (read_line _ _ p b'-' (with_class e) rest h)
parse_one-encode levels p (number n) rest h = read_integer p n rest h
parse_one-encode levels p (text s) rest h =
    rw (encode_bulk_string-rest s rest) (parse_one-bulk (suc (suc levels)) p s rest h)
parse_one-encode levels p (texts a) rest (few, h) =
    parse_one-encode_array (suc levels) p a rest few h
parse_one-encode levels p (tables as') rest (few, h) =
    rw (encode_nested_array-rest as' rest) (read_tables levels p as' rest few h)
parse_one-encode levels p ok rest h = read_ok (suc levels) p rest
parse_one-encode levels p null rest h = read_nil (suc (suc levels)) p rest
parse_one-encode levels p nil rest h = read_nil (suc (suc levels)) p rest
