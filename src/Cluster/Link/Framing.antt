-- ===== src/Cluster/Link/Framing.antt =====
-- Laws of the argument area of a cluster bus frame (cluster/cluster_link.cpp).
use concurrent_cache.Prelude.{
  ℕ, zero, suc, ◌+◌, ◌*◌, ◌/◌, ◌%◌, ◌^◌, ◌<◌, ◌≤◌, ◌≡◌, refl, sym, some, List, [], ◌∷◌, ◌++◌, arith,
  length, drop, append_assoc, append-nil, length-append, take-length-append, drop-length-append,
}
use concurrent_cache.Text.{Bytes, codes, index_of-append}
use concurrent_cache.Text.Decimal.{to_string, print_loop, Lacks-to_string}
use concurrent_cache.Cluster.Link.{
  digits_loop, decimal_digits, newline, read_digits, read_field, field_of_width, digits_field,
  decoded, split_arg, decode_args, decode_counted, bus_args_decode, bus_args_encode, append_args,
  bus_args_frame_bytes, add_args_bytes,
}

length-print_loop :
    (f n : ℕ) (out : Bytes)
    → n < f
    → length (print_loop f n out) ≡ digits_loop f n (suc (length out))
unfolding print_loop digits_loop
length-print_loop zero n out h = elim h [ ]
length-print_loop (suc zero) n out h = ground arith
length-print_loop (suc (suc f)) n out h =
    ground (arith, length-print_loop (suc f) (n / 10) ((b'0' + n % 10) ∷ out))

pub length-to_string : (n : ℕ) → length (to_string n) ≡ decimal_digits n
unfolding to_string decimal_digits
length-to_string n = length-print_loop (suc n) n [] (omega arith)

-- A number below 10 ^ d has at most d digits.
abbrev tens : ℕ → ℕ
tens zero = 1
tens (suc d) = 10 * tens d

digits_loop_le : (d f v n : ℕ) → v < tens (suc d) → digits_loop f v n ≤ n + d
unfolding digits_loop
digits_loop_le d zero v n h = omega arith
digits_loop_le zero (suc f) v n h = ground arith
digits_loop_le (suc d) (suc f) v n h = ground (arith, digits_loop_le d f (v / 10) (suc n))

decimal_digits_le : (v : ℕ) → v < 10 ^ 10 → decimal_digits v ≤ 10
unfolding decimal_digits
decimal_digits_le v h = digits_loop_le 9 (suc v) v 1 h

digits_loop_pos : (f v n : ℕ) → n ≤ digits_loop f v n
unfolding digits_loop
digits_loop_pos zero v n = omega arith
digits_loop_pos (suc f) v n = ground (arith, digits_loop_pos f (v / 10) (suc n))

decimal_digits_pos : (v : ℕ) → 1 ≤ decimal_digits v
unfolding decimal_digits
decimal_digits_pos v = digits_loop_pos (suc v) v 1

-- The digits that `print_loop` puts down are read back.
read_digits-print_loop :
    (f n : ℕ) (out : Bytes) → n < f → read_digits (print_loop f n out) 0 ≡ read_digits out n
unfolding read_digits print_loop
read_digits-print_loop zero n out h = elim h [ ]
read_digits-print_loop (suc f) n out h =
    ground (arith, read_digits-print_loop f (n / 10) ((b'0' + n % 10) ∷ out))

read_digits-to_string : (n : ℕ) → read_digits (to_string n) 0 ≡ some n
unfolding read_digits to_string
read_digits-to_string n = read_digits-print_loop (suc n) n [] (omega arith)

-- What stands behind a separator.
drop_past : (s rest : Bytes) (c : ℕ) → drop (suc (length s)) (s ++ c ∷ rest) ≡ rest
drop_past [] rest c = refl
drop_past (b ∷ s) rest c = drop_past s rest c

field_of_width-to_string :
    (n : ℕ) (rest what : Bytes)
    → n < 10 ^ 10
    → field_of_width (to_string n ++ newline ∷ rest) what (some (length (to_string n)))
      ≡ decoded n rest
unfolding field_of_width digits_field
field_of_width-to_string n rest what lt =
    rw (take-length-append, drop_past, read_digits-to_string, length-to_string)
      (ground (arith, decimal_digits_le n lt, decimal_digits_pos n))

-- A length of up to ten digits is read back, and what stands behind it remains.
pub read_field-to_string :
    (n : ℕ) (rest what : Bytes)
    → n < 10 ^ 10
    → read_field (to_string n ++ newline ∷ rest) what ≡ decoded n rest
unfolding read_field
read_field-to_string n rest what lt =
    rw (index_of-append newline (to_string n) rest (Lacks-to_string newline n refl))
      (field_of_width-to_string n rest what lt)

-- What an argument takes in the frame.
abbrev args_bytes : List Bytes → Bytes
args_bytes [] = []
args_bytes (arg ∷ args) = to_string (length arg) ++ newline ∷ (arg ++ args_bytes args)

append_args-args_bytes :
    (args : List Bytes) (out : Bytes) → append_args args out ≡ out ++ args_bytes args
unfolding append_args
append_args-args_bytes [] out = sym (append-nil out)
append_args-args_bytes (arg ∷ args) out =
    rw (append_args-args_bytes args, append_assoc, append_assoc) refl

pub bus_args_encode_eq :
    (args : List Bytes) (out : Bytes)
    → bus_args_encode args out ≡ out ++ to_string (length args) ++ newline ∷ args_bytes args
unfolding bus_args_encode
bus_args_encode_eq args out = rw (append_args-args_bytes args, append_assoc, append_assoc) refl

add_args_bytes_eq :
    (args : List Bytes) (n : ℕ) → add_args_bytes args n ≡ n + length (args_bytes args)
unfolding add_args_bytes
add_args_bytes_eq [] n = omega arith
add_args_bytes_eq (arg ∷ args) n = ground (
  arith,
  add_args_bytes_eq args (n + (decimal_digits (length arg) + 1 + length arg)),
  length-append (to_string (length arg)) (newline ∷ (arg ++ args_bytes args)),
  length-append arg (args_bytes args),
  length-to_string (length arg),
)

-- The frame's length that send_msg announces is the number of bytes that are written.
pub bus_args_frame_bytes-encode :
    (args : List Bytes) (out : Bytes)
    → length (bus_args_encode args out) ≡ length out + bus_args_frame_bytes args
unfolding bus_args_frame_bytes
bus_args_frame_bytes-encode args out =
    rw (bus_args_encode_eq, add_args_bytes_eq, length-append, length-append, length-to_string)
      (omega arith)

-- Each length has at most ten digits.
abbrev pub AreShort : List Bytes → Type 0
AreShort [] = Unit {0}
AreShort (arg ∷ args) = (length arg < 10 ^ 10) × AreShort args

split_arg-append :
    (arg rest : Bytes) → split_arg (decoded (length arg) (arg ++ rest)) ≡ decoded arg rest
unfolding split_arg
split_arg-append arg rest =
    rw (take-length-append, drop-length-append, length-append) (ground arith)

decode_args-args_bytes :
    (args out : List Bytes)
    → AreShort args
    → decode_args (length args) (args_bytes args) out ≡ decoded (out ++ args) []
unfolding decode_args
decode_args-args_bytes [] out h = rw append-nil refl
decode_args-args_bytes (arg ∷ args) out h =
    rw
      (
        decode_args,
        read_field-to_string (length arg) (arg ++ args_bytes args) (codes "arg length") h.0,
        split_arg-append arg (args_bytes args),
        decode_args-args_bytes args (out ++ arg ∷ []) h.1,
        append_assoc,
      )
      refl

length-args_bytes_ge : (args : List Bytes) → length args ≤ length (args_bytes args)
length-args_bytes_ge [] = omega arith
length-args_bytes_ge (arg ∷ args) = ground (
  arith,
  length-args_bytes_ge args,
  length-append (to_string (length arg)) (newline ∷ (arg ++ args_bytes args)),
  length-append arg (args_bytes args),
)

-- The arguments of a frame come back as they were sent, whatever bytes they contain, when there are
-- at most 2 ^ 20 and each length has at most ten digits.
pub bus_args_decode-encode :
    (args : List Bytes)
    → length args ≤ 2 ^ 20
    → AreShort args
    → bus_args_decode (bus_args_encode args []) ≡ decoded args []
unfolding bus_args_decode decode_counted
bus_args_decode-encode args few h =
    rw
      (
        bus_args_encode_eq args [],
        read_field-to_string (length args) (args_bytes args) (codes "arg count") (omega arith),
        decode_args-args_bytes args [] h,
      )
      (ground (
        arith,
        length-args_bytes_ge args,
        length-append (to_string (length args)) (newline ∷ args_bytes args),
      ))
