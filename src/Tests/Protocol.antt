-- ===== src/Tests/Protocol.antt =====
-- src/protocol/resp.cpp at concrete inputs.
use concurrent_cache.Prelude.{◌≡◌, refl, none, some, List, [], ◌∷◌, ◌++◌, arith, false}
use concurrent_cache.Text.{Bytes, codes}
use concurrent_cache.Text.Stoll.{stoll, skip_space, after_space, signed_digits}
use concurrent_cache.Text.Decimal.{scan}
use concurrent_cache.Protocol.Resp.Scan.{
  has_complete_command, cut_line, find_crlf, complete_line, complete_array, parse_int64_safe,
  skip_elements, skip_element, skip_bulk,
}
use concurrent_cache.Protocol.Resp.Encoder.{encode_arrays}
use concurrent_cache.Protocol.Resp.Parser.{
  new_parser, parse, parse_one, parse_loop, has_protocol_error,
}
use concurrent_cache.Protocol.Resp.Parser.Loop.{parse_loop-parse}
use concurrent_cache.Protocol.Resp.Arrays.{AllShort}
use concurrent_cache.Protocol.Resp.Commands.{requests, parse-encode_arrays}
use concurrent_cache.Protocol.Resp.Replies.{texts, encode, decoded, parse_one-encode}
use concurrent_cache.Protocol.Resp.Stuck.{bad_integer, parse-bad_integer}
use concurrent_cache.Protocol.Resp.Nested.{length_line, parse-length_line}

abbrev get_a : List Bytes
get_a = codes "GET" ∷ codes "a" ∷ []

abbrev half : Bytes
half = codes "*1\r\n$4\r\nPI"

half_incomplete : has_complete_command half ≡ false
unfolding has_complete_command cut_line find_crlf complete_line complete_array parse_int64_safe
    stoll after_space skip_space signed_digits scan skip_elements skip_element skip_bulk
half_incomplete = refl

short : AllShort get_a
short = (omega arith, (omega arith, tt))

parse-encode_arrays_example :
    parse new_parser (encode_arrays (get_a ∷ get_a ∷ []) ++ half)
    ≡ (new_parser, half, requests (get_a ∷ get_a ∷ []))
parse-encode_arrays_example =
    parse-encode_arrays new_parser (get_a ∷ get_a ∷ []) half
      (omega arith, short, (omega arith, short, tt)) half_incomplete

parse_one-encode_example :
    parse_one 2 new_parser (encode (texts get_a) ++ half)
    ≡ (new_parser, half, some (decoded (texts get_a)))
parse_one-encode_example = parse_one-encode 0 new_parser (texts get_a) half (omega arith, short)

parse_loop-parse_example : parse_loop 40 new_parser half ≡ parse new_parser half
parse_loop-parse_example = parse_loop-parse 40 new_parser half (omega arith)

no_number : stoll (codes "abc") ≡ none
unfolding stoll skip_space after_space signed_digits
no_number = refl

parse-bad_integer_example :
    ((has_protocol_error new_parser (bad_integer (codes "abc") half)).1 ≡ false)
    × (parse new_parser (bad_integer (codes "abc") half) ≡ (
      record new_parser { error_msg = codes "Invalid integer: " ++ codes "abc" },
      bad_integer (codes "abc") half,
      [],
    ))
parse-bad_integer_example =
    parse-bad_integer new_parser (codes "abc") half refl
      (omega arith, (omega arith, (omega arith, tt))) (omega arith) no_number

parse-length_line_example :
    parse new_parser (codes "*1\r\n*1\r\n" ++ length_line 3)
    ≡ (record new_parser { error_msg = codes "Bulk string incomplete" }, length_line 3, [])
parse-length_line_example = parse-length_line new_parser 3 (omega arith)
