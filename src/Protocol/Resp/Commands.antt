-- ===== src/Protocol/Resp/Commands.antt =====
-- A stream of commands, as a client encodes them, is read back.
use concurrent_cache.Prelude.{
  ℕ, zero, suc, ◌≤◌, ◌≡◌, refl, ap, ◌∙◌, true, false, some, List, [], ◌∷◌, ◌++◌, append_assoc,
  arith, ltb, length, length-append, pos,
}
use concurrent_cache.Text.{Bytes}
use concurrent_cache.Text.Decimal.{to_string, starts_with_digit, starts_with_digit-to_string}
use concurrent_cache.Protocol.Resp.{RespValue, array}
use concurrent_cache.Protocol.Resp.Scan.{
  cr, lf, max_array, has_complete_command, skip_element, skip_elements, skip_bulk, complete_line,
  complete_array,
}
use concurrent_cache.Protocol.Resp.Lines.{parse_int64_safe-to_string, behind, room}
use concurrent_cache.Protocol.Resp.Encoder.{encode_bulks, encode_array, encode_arrays}
use concurrent_cache.Protocol.Resp.Parser.{RespParser, parse_loop, parse}
use concurrent_cache.Protocol.Resp.Arrays.{
  bulks, AllShort, AllSendable, encode_bulks-rest, encode_array-rest, cut_length,
  parse_one-encode_array,
}

no_bulks : (rest : Bytes) → encode_bulks [] ++ rest ≡ rest
unfolding encode_bulks
no_bulks rest = refl

skip_elements-encode_bulks :
    (a : List Bytes) (rest : Bytes)
    → AllShort a
    → skip_elements (length a) (encode_bulks a ++ rest) ≡ some rest
unfolding skip_elements skip_element skip_bulk
skip_elements-encode_bulks [] rest h = ap some (no_bulks rest)
skip_elements-encode_bulks (s ∷ ss) rest (h, hs) =
    rw
      (
        encode_bulks-rest s ss rest,
        cut_length (length s) (s ++ cr ∷ lf ∷ (encode_bulks ss ++ rest)),
        parse_int64_safe-to_string (length s) h,
        room s (encode_bulks ss ++ rest),
        behind s (encode_bulks ss ++ rest),
        skip_elements-encode_bulks ss rest hs,
      )
      refl

some_digit : (s : Bytes) → starts_with_digit (s ++ []) ≡ true → 1 ≤ length s
some_digit [] h = cc
some_digit (c ∷ s) h = omega arith

long_enough : (n : ℕ) (rest : Bytes) → ltb (suc (length (to_string n ++ cr ∷ lf ∷ rest))) 4 ≡ false
long_enough n rest = ground (
  arith,
  length-append (to_string n) (cr ∷ lf ∷ rest),
  some_digit (to_string n) (starts_with_digit-to_string n []),
)

all_there :
    (a : List Bytes) (rest : Bytes)
    → length a ≤ max_array
    → AllShort a
    → complete_array (some (pos (length a))) (encode_bulks a ++ rest) ≡ true
unfolding complete_array
all_there [] rest few h = refl
all_there (s ∷ ss) rest few h = rw (skip_elements-encode_bulks (s ∷ ss) rest h) (ground arith)

-- A command that is there as a whole is found to be complete.
pub has_complete_command-encode_array :
    (a : List Bytes) (rest : Bytes)
    → length a ≤ max_array
    → AllShort a
    → has_complete_command (encode_array a ++ rest) ≡ true
unfolding has_complete_command complete_line
has_complete_command-encode_array a rest few h =
    rw
      (
        encode_array-rest a rest,
        long_enough (length a) (encode_bulks a ++ rest),
        cut_length (length a) (encode_bulks a ++ rest),
        parse_int64_safe-to_string (length a) (omega arith),
      )
      (all_there a rest few h)

-- The commands that are read from a stream.
abbrev pub requests : List (List Bytes) → List RespValue
requests [] = []
requests (a ∷ as') = array (bulks a) ∷ requests as'

parse_loop-encode_arrays :
    (fuel : ℕ) (p : RespParser) (as' : List (List Bytes)) (rest : Bytes)
    → length as' ≤ fuel
    → AllSendable as'
    → has_complete_command rest ≡ false
    → parse_loop fuel p (encode_arrays as' ++ rest) ≡ (p, rest, requests as')
unfolding parse_loop encode_arrays
parse_loop-encode_arrays zero p [] rest le h part = refl
parse_loop-encode_arrays (suc fuel) p [] rest le h part = rw (part, parse_loop) refl
parse_loop-encode_arrays zero p (a ∷ as') rest le h part = absurd (omega arith)
parse_loop-encode_arrays (suc fuel) p (a ∷ as') rest le (few, short, h) part =
    ap (λ z. parse_loop (suc fuel) p z) (append_assoc (encode_array a) (encode_arrays as') rest)
    ∙ rw
        (
          has_complete_command-encode_array a (encode_arrays as' ++ rest) few short,
          parse_loop,
          parse_one-encode_array 31 p a (encode_arrays as' ++ rest) few short,
          parse_loop-encode_arrays fuel p as' rest (omega arith) h part,
        )
        refl

longer :
    {n : ℕ} (x y rest : Bytes) → n ≤ length (y ++ rest) → suc n ≤ suc (length ((x ++ y) ++ rest))
longer x y rest h =
    omega (arith, length-append (x ++ y) rest, length-append x y, length-append y rest)

enough : (as' : List (List Bytes)) (rest : Bytes) → length as' ≤ length (encode_arrays as' ++ rest)
unfolding encode_arrays encode_array
enough [] rest = omega arith
enough (a ∷ as') rest =
    longer (to_string (length a) ++ cr ∷ lf ∷ encode_bulks a) (encode_arrays as') rest
      (enough as' rest)

-- A stream of commands as RespEncoder::encode_array writes them, each of at most 2^20 arguments shorter
-- than 2^63 bytes, followed by bytes that are no complete command yet: `parse` returns the
-- commands in order, leaves those bytes, and notes no error.
pub parse-encode_arrays :
    (p : RespParser) (as' : List (List Bytes)) (rest : Bytes)
    → AllSendable as'
    → has_complete_command rest ≡ false
    → parse p (encode_arrays as' ++ rest) ≡ (p, rest, requests as')
unfolding parse
parse-encode_arrays p as' rest h part =
    parse_loop-encode_arrays (length (encode_arrays as' ++ rest)) p as' rest (enough as' rest) h
      part
