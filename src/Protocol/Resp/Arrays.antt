-- ===== src/Protocol/Resp/Arrays.antt =====
-- An array of strings, as the encoder writes it, is read back by `parse_one`.
use concurrent_cache.Prelude.{
  ℕ, zero, suc, ◌^◌, ◌<◌, ◌≤◌, ◌≡◌, refl, ◌∙◌, some, List, [], ◌∷◌, ◌++◌, append_assoc, arith,
  length, pos,
}
use concurrent_cache.Text.{Bytes}
use concurrent_cache.Text.Decimal.{to_string, Lacks-to_string}
use concurrent_cache.Protocol.Resp.{RespValues, no_values, value, bulk_string, array}
use concurrent_cache.Protocol.Resp.Scan.{cut_line, cr, lf, max_array}
use concurrent_cache.Protocol.Resp.Lines.{
  cut_line-line, parse_int64_safe-to_string, content, behind, room,
}
use concurrent_cache.Protocol.Resp.Encoder.{encode_bulk_string, encode_bulks, encode_array}
use concurrent_cache.Protocol.Resp.Parser.{
  RespParser, parse_one, by_type, parse_bulk_string, bulk_content, parse_elements, array_content,
  parse_array,
}

-- What the parser makes of the arguments of a command.
abbrev pub bulks : List Bytes → RespValues
bulks [] = no_values
bulks (s ∷ ss) = value (bulk_string s) (bulks ss)

-- No argument is longer than a length line can say.
abbrev pub AllShort : List Bytes → Type 0
AllShort [] = Unit {0}
AllShort (s ∷ ss) = (length s < 2 ^ 63) × AllShort ss

-- The commands that a client may send at once.
abbrev pub AllSendable : List (List Bytes) → Type 0
AllSendable [] = Unit {0}
AllSendable (a ∷ as') = (length a ≤ max_array) × AllShort a × AllSendable as'

pub encode_bulk_string-rest :
    (s rest : Bytes)
    → encode_bulk_string s ++ rest
      ≡ b'$' ∷ (to_string (length s) ++ cr ∷ lf ∷ (s ++ cr ∷ lf ∷ rest))
unfolding encode_bulk_string
encode_bulk_string-rest s rest = simp append_assoc

pub encode_bulks-rest :
    (s : Bytes) (ss : List Bytes) (rest : Bytes)
    → encode_bulks (s ∷ ss) ++ rest
      ≡ b'$' ∷ (to_string (length s) ++ cr ∷ lf ∷ (s ++ cr ∷ lf ∷ (encode_bulks ss ++ rest)))
unfolding encode_bulks
encode_bulks-rest s ss rest =
    append_assoc (encode_bulk_string s) (encode_bulks ss) rest
    ∙ encode_bulk_string-rest s (encode_bulks ss ++ rest)

pub encode_array-rest :
    (a : List Bytes) (rest : Bytes)
    → encode_array a ++ rest ≡ b'*' ∷ (to_string (length a) ++ cr ∷ lf ∷ (encode_bulks a ++ rest))
unfolding encode_array
encode_array-rest a rest = simp append_assoc

-- A length line, cut off.
pub cut_length :
    (n : ℕ) (rest : Bytes) → cut_line (to_string n ++ cr ∷ lf ∷ rest) ≡ some (to_string n, rest)
cut_length n rest = cut_line-line (to_string n) rest (Lacks-to_string cr n refl)

read_content :
    (p : RespParser) (all s rest : Bytes)
    → bulk_content p all (some (pos (length s))) (s ++ cr ∷ lf ∷ rest)
      ≡ (p, rest, some (bulk_string s))
unfolding bulk_content
read_content p all s rest = rw (room s rest, behind s rest, content s rest) refl

read_bulk :
    (p : RespParser) (s rest : Bytes)
    → length s < 2 ^ 63
    → parse_bulk_string p b'$' (to_string (length s) ++ cr ∷ lf ∷ (s ++ cr ∷ lf ∷ rest))
      ≡ (p, rest, some (bulk_string s))
unfolding parse_bulk_string
read_bulk p s rest h =
    rw
      (
        cut_length (length s) (s ++ cr ∷ lf ∷ rest),
        parse_bulk_string,
        parse_int64_safe-to_string (length s) h,
      )
      (read_content p _ s rest)

pub parse_one-bulk :
    (levels : ℕ) (p : RespParser) (s rest : Bytes)
    → length s < 2 ^ 63
    → parse_one levels p (b'$' ∷ (to_string (length s) ++ cr ∷ lf ∷ (s ++ cr ∷ lf ∷ rest)))
      ≡ (p, rest, some (bulk_string s))
unfolding parse_one by_type
parse_one-bulk zero p s rest h = read_bulk p s rest h
parse_one-bulk (suc levels) p s rest h = read_bulk p s rest h

parse_elements-encode_bulks :
    (levels : ℕ) (p : RespParser) (a : List Bytes) (rest : Bytes)
    → AllShort a
    → parse_elements (parse_one levels) (length a) p (encode_bulks a ++ rest)
      ≡ (p, rest, some (bulks a))
unfolding parse_elements encode_bulks
parse_elements-encode_bulks levels p [] rest h = refl
parse_elements-encode_bulks levels p (s ∷ ss) rest (h, hs) =
    rw
      (
        encode_bulks-rest s ss rest,
        parse_one-bulk levels p s (encode_bulks ss ++ rest) h,
        parse_elements-encode_bulks levels p ss rest hs,
      )
      refl

read_array :
    (levels : ℕ) (p : RespParser) (a : List Bytes) (rest : Bytes)
    → length a ≤ max_array
    → AllShort a
    → parse_array
        (parse_one levels)
        p
        b'*'
        (to_string (length a) ++ cr ∷ lf ∷ (encode_bulks a ++ rest))
      ≡ (p, rest, some (array (bulks a)))
unfolding parse_array array_content
read_array levels p a rest few h =
    rw
      (
        cut_length (length a) (encode_bulks a ++ rest),
        parse_array,
        parse_int64_safe-to_string (length a) (omega arith),
        parse_elements-encode_bulks levels p a rest h,
      )
      refl

pub parse_one-array :
    (levels : ℕ) (p : RespParser) (a : List Bytes) (rest : Bytes)
    → length a ≤ max_array
    → AllShort a
    → parse_one (suc levels) p (b'*' ∷ (to_string (length a) ++ cr ∷ lf ∷ (encode_bulks a ++ rest)))
      ≡ (p, rest, some (array (bulks a)))
unfolding parse_one by_type
parse_one-array levels p a rest few h = read_array levels p a rest few h

pub parse_one-encode_array :
    (levels : ℕ) (p : RespParser) (a : List Bytes) (rest : Bytes)
    → length a ≤ max_array
    → AllShort a
    → parse_one (suc levels) p (encode_array a ++ rest) ≡ (p, rest, some (array (bulks a)))
parse_one-encode_array levels p a rest few h =
    rw (encode_array-rest a rest) (parse_one-array levels p a rest few h)
