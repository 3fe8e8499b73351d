-- ===== src/Protocol/Resp/Nested.antt =====
-- An array within an array, of which the content has not come yet.
use concurrent_cache.Prelude.{
  ℕ, suc, ◌^◌, ◌<◌, ◌≡◌, refl, true, some, none, [], ◌∷◌, ◌++◌, arith, pos,
}
use concurrent_cache.Text.{Bytes, Lacks, codes}
use concurrent_cache.Text.Stoll.{stoll, skip_space, after_space, signed_digits}
use concurrent_cache.Text.Decimal.{scan, to_string, Lacks-to_string}
use concurrent_cache.Protocol.Resp.Scan.{
  cut_line, parse_int64_safe, cr, lf, has_complete_command, complete_line, complete_array,
  skip_elements, skip_element, skip_nested, find_crlf,
}
use concurrent_cache.Protocol.Resp.Lines.{parse_int64_safe-to_string}
use concurrent_cache.Protocol.Resp.Parser.{
  RespParser, parse, parse_loop, parse_one, by_type, parse_bulk_string, bulk_content, parse_array,
  array_content, parse_elements, fail,
}
use concurrent_cache.Protocol.Resp.Arrays.{cut_length}

-- The length line of a bulk string of `n` bytes.
abbrev pub length_line : ℕ → Bytes
length_line n = b'$' ∷ (to_string n ++ cr ∷ lf ∷ [])

-- Up to its line end, and with no `*`, a text closes one level.
skip_nested-line :
    (depth prev : ℕ) (line rest : Bytes)
    → Lacks b'*' line
    → Lacks lf line
    → skip_nested (suc depth) prev (line ++ cr ∷ lf ∷ rest) ≡ skip_nested depth lf rest
unfolding skip_nested
skip_nested-line depth prev [] rest k l = refl
skip_nested-line depth prev (c ∷ line) rest (k, ks) (l, ls) =
    ground (arith, skip_nested-line depth c line rest)

nested_there : (n : ℕ) → skip_nested 1 0 (codes "*1\r\n" ++ length_line n) ≡ some []
unfolding skip_nested
nested_there n =
    rw
      (
        skip_nested-line 0 b'$' (to_string n) [] (Lacks-to_string b'*' n refl)
            (Lacks-to_string lf n refl),
        skip_nested,
      )
      refl

elements_there : (n : ℕ) → skip_elements 1 (codes "*1\r\n" ++ length_line n) ≡ some []
unfolding skip_elements skip_element
elements_there n = rw (nested_there n) refl

found_complete : (n : ℕ) → has_complete_command (codes "*1\r\n*1\r\n" ++ length_line n) ≡ true
unfolding has_complete_command complete_line complete_array cut_line find_crlf parse_int64_safe
    stoll skip_space after_space signed_digits scan
found_complete n = rw (elements_there n) (ground arith)

incomplete :
    (p : RespParser) (n : ℕ)
    → n < 2 ^ 63
    → parse_bulk_string p b'$' (to_string n ++ cr ∷ lf ∷ [])
      ≡ (record p { error_msg = codes "Bulk string incomplete" }, length_line n, none)
unfolding parse_bulk_string bulk_content fail
incomplete p n h =
    rw (cut_length n [], parse_bulk_string, parse_int64_safe-to_string n h) (no_room p n)
  where
    no_room :
        (p : RespParser) (n : ℕ)
        → bulk_content p (length_line n) (some (pos n)) []
          ≡ (record p { error_msg = codes "Bulk string incomplete" }, length_line n, none)
    no_room p n = ground arith

lost_lines :
    (p : RespParser) (n : ℕ)
    → n < 2 ^ 63
    → parse_one 32 p (codes "*1\r\n*1\r\n" ++ length_line n)
      ≡ (record p { error_msg = codes "Bulk string incomplete" }, length_line n, none)
unfolding parse_one by_type parse_array array_content parse_elements cut_line find_crlf
    parse_int64_safe stoll skip_space after_space signed_digits scan
lost_lines p n h = rw (incomplete p n h) refl

-- A client has sent the two count lines of an array within an array and the length line of its
-- string, and nothing of the string: `parse` takes that for a complete command, notes an error, and
-- consumes the count lines, so that the string which comes next is read with no array around it.
pub parse-length_line :
    (p : RespParser) (n : ℕ)
    → n < 2 ^ 63
    → parse p (codes "*1\r\n*1\r\n" ++ length_line n)
      ≡ (record p { error_msg = codes "Bulk string incomplete" }, length_line n, [])
unfolding parse parse_loop
parse-length_line p n h = rw (found_complete n, parse_loop, lost_lines p n h) refl
