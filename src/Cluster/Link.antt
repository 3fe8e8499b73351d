-- ===== src/Cluster/Link.antt =====
-- cluster/cluster_link.cpp: the argument area of a cluster bus frame. Version 2 writes the number
-- of arguments and, for each one, its length and its bytes; version 1 splits at the byte 0xC0. A
-- frame that is still to be read is the list of its remaining bytes (`data + pos`, `len - pos`).
-- The children have the frame's header, a link's state with its two ends, and their laws.
pub mod Framing
pub mod Header
pub mod HeaderBytes
pub mod Session
pub mod Reading
pub mod Frames
pub mod Turns
pub mod Stream
pub mod Cuts
pub mod Grace
pub mod Delivery
pub mod Deadline
pub mod Progress
pub mod Gossip
use concurrent_cache.Prelude.{
  ℕ, zero, suc, ◌+◌, ◌-◌, ◌*◌, ◌/◌, ◌^◌, Bool, ◌||◌, ◌&&◌, Option, none, some, List, [], ◌∷◌, ◌++◌,
  ◌==◌, ltb, leb, if◌then◌else◌, length, take, drop,
}
use concurrent_cache.Text.{Bytes, codes, index_of}
use concurrent_cache.Text.Decimal.{to_string, is_digit}

abbrev pub newline : ℕ
newline = 10

-- The loop of decimal_digits; the fuel bounds the number of digits.
unfoldable pub digits_loop : ℕ → ℕ → ℕ → ℕ
digits_loop zero v n = n
digits_loop (suc f) v n = let more = digits_loop f (v / 10) (suc n) in if leb 10 v then more else n

unfoldable pub decimal_digits : ℕ → ℕ
unfolding digits_loop
decimal_digits v = digits_loop (suc v) v 1

-- kMaxArgsPerFrame
abbrev pub max_args_per_frame : ℕ
max_args_per_frame = 2 ^ 20

unfoldable pub add_args_bytes : List Bytes → ℕ → ℕ
unfolding decimal_digits
add_args_bytes [] bytes = bytes
add_args_bytes (arg ∷ args) bytes =
    add_args_bytes args (bytes + (decimal_digits (length arg) + 1 + length arg))

unfoldable pub bus_args_frame_bytes : List Bytes → ℕ
unfolding decimal_digits add_args_bytes
bus_args_frame_bytes args = add_args_bytes args (decimal_digits (length args) + 1)

unfoldable pub append_args : List Bytes → Bytes → Bytes
unfolding to_string
append_args [] out = out
append_args (arg ∷ args) out = append_args args (out ++ to_string (length arg) ++ newline ∷ arg)

unfoldable pub bus_args_encode : List Bytes → Bytes → Bytes
unfolding to_string append_args
bus_args_encode args out = append_args args (out ++ to_string (length args) ++ newline ∷ [])

-- A result of `bool f(…, out, err)`: what it read with the bytes that remain, or `err`.
pub data Decoded (A : Type 0) : Type 0 where
  decoded : A → Bytes → Decoded A
  malformed : Bytes → Decoded A

-- The digits of a field, whose width is at most 10.
unfoldable pub read_digits : Bytes → ℕ → Option ℕ
read_digits [] v = some v
read_digits (c ∷ s) v =
    let more = read_digits s (v * 10 + (c - b'0')) in if is_digit c then more else none

unfoldable pub digits_field : Bytes → Bytes → Option ℕ → Decoded ℕ
digits_field what rest none = malformed (codes "non-digit in " ++ what)
digits_field what rest (some v) = decoded v rest

-- `read_field`, after the search for the newline.
unfoldable pub field_of_width : Bytes → Bytes → Option ℕ → Decoded ℕ
unfolding read_digits digits_field
field_of_width s what none = malformed (codes "no newline terminating " ++ what)
field_of_width s what (some width) =
    if width == 0 || ltb 10 width
    then malformed (codes "bad width of " ++ what)
    else digits_field what (drop (suc width) s) (read_digits (take width s) 0)

unfoldable pub read_field : Bytes → Bytes → Decoded ℕ
unfolding index_of field_of_width
read_field s what = field_of_width s what (index_of newline s)

unfoldable pub split_arg : Decoded ℕ → Decoded Bytes
split_arg (malformed err) = malformed err
split_arg (decoded arg_len rest) =
    if ltb (length rest) arg_len
    then malformed (codes "arg length exceeds remaining frame bytes")
    else decoded (take arg_len rest) (drop arg_len rest)

-- The loop over the arguments, and the check behind it.
unfoldable pub decode_args : ℕ → Bytes → List Bytes → Decoded (List Bytes)
unfolding read_field split_arg
decode_args zero [] out = decoded out []
decode_args zero (c ∷ s) out = malformed (codes "trailing bytes after last arg")
decode_args (suc n) s out = elim (split_arg (read_field s (codes "arg length"))) [
  | malformed err ↦ malformed err
  | decoded arg rest ↦ decode_args n rest (out ++ arg ∷ [])
]

unfoldable pub decode_counted : ℕ → Decoded ℕ → Decoded (List Bytes)
unfolding decode_args
decode_counted len (malformed err) = malformed err
decode_counted len (decoded count rest) =
    if ltb max_args_per_frame count || ltb len count
    then malformed (codes "implausible arg count")
    else decode_args count rest []

unfoldable pub bus_args_decode : Bytes → Decoded (List Bytes)
unfolding read_field decode_counted
bus_args_decode s = decode_counted (length s) (read_field s (codes "arg count"))

-- The legacy split: `current` is the argument that is being read.
unfoldable pub split_legacy : Bytes → Bytes → List Bytes → List Bytes
split_legacy [] [] out = out
split_legacy [] (c ∷ current) out = out ++ (c ∷ current) ∷ []
split_legacy (b ∷ s) current out =
    let closed = split_legacy s [] (out ++ current ∷ []) in
    let grown = split_legacy s (current ++ b ∷ []) out in if b == 192 then closed else grown

unfoldable pub bus_args_decode_legacy : Bytes → List Bytes
unfolding split_legacy
bus_args_decode_legacy s = split_legacy s [] []
