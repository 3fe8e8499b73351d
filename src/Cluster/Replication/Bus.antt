-- ===== src/Cluster/Replication/Bus.antt =====
-- src/cluster/replication_mgr.cpp: commands over the cluster bus, from send_replication_args to
-- execute_bus_command_line. The command table is a parameter.
use concurrent_cache.Prelude.{
  ℕ, ◌+◌, ◌≤◌, ◌≡◌, refl, sym, ap, ◌∙◌, Bool, true, false, ◌&&◌, Option, none, some, List, [], ◌∷◌,
  ◌++◌, map, leb, ◌==◌, ◌<◌, ◌⊎◌, arith, append_assoc, if◌then◌else◌, when_some, append-nil, length,
}
use concurrent_cache.Text.{Bytes, codes}
use concurrent_cache.Text.Stoll.{is_space}
use concurrent_cache.Protocol.Resp.{RespValue, RespValues, no_values, value, array, as_string}
use concurrent_cache.Protocol.Resp.Scan.{has_complete_command, max_array}
use concurrent_cache.Protocol.Resp.Encoder.{encode_array, encode_arrays, encode_error}
use concurrent_cache.Protocol.Resp.Parser.{RespParser, new_parser, parse}
use concurrent_cache.Protocol.Resp.Arrays.{bulks, AllShort}
use concurrent_cache.Protocol.Resp.Commands.{parse-encode_arrays}

-- What send_replication_args hands to the connection.
unfoldable pub send_replication_args : List Bytes → Option Bytes
send_replication_args [] = none
send_replication_args (name ∷ args) = some (encode_array (name ∷ args))

-- `iss >> token` until it fails, from the back: a byte begins a word if a space or the end follows it.
abbrev pub push_byte : ℕ → List Bytes → Bool → List Bytes
push_byte c words true = (c ∷ []) ∷ words
push_byte c [] false = (c ∷ []) ∷ []
push_byte c (w ∷ words) false = (c ∷ w) ∷ words

abbrev pub at_gap : Bytes → Bool
at_gap [] = true
at_gap (c ∷ s) = is_space c

unfoldable pub tokens : Bytes → List Bytes
tokens [] = []
tokens (c ∷ s) = let rest = tokens s in if is_space c then rest else push_byte c rest (at_gap s)

-- The argument list, or a payload that the parser refuses.
pub data BusArguments : Type 0 where
  arguments : List Bytes → BusArguments
  malformed : BusArguments

unfoldable pub strings_of : RespValues → List Bytes
strings_of no_values = []
strings_of (value v vs) = as_string v ∷ strings_of vs

abbrev pub from_values : Bytes → List RespValue → BusArguments
from_values cmd_line (array vs ∷ values) = arguments (strings_of vs)
from_values cmd_line values = arguments (tokens cmd_line)

abbrev pub from_parsed : Bytes → RespParser × Bytes × List RespValue → BusArguments
from_parsed cmd_line (p, rest, values) = elim p.error_msg [
  | [] ↦ from_values cmd_line values
  | c ∷ msg ↦ malformed
]

unfoldable pub bus_arguments : Bytes → BusArguments
bus_arguments [] = arguments (tokens [])
bus_arguments (c ∷ s) =
    if c == b'*' then from_parsed (c ∷ s) (parse new_parser (c ∷ s)) else arguments (tokens (c ∷ s))

abbrev pub lower : ℕ → ℕ
lower c = if leb b'A' c && leb c b'Z' then c + 32 else c

-- `create` is the command table: what a command does to the state, and its reply.
module _ {S : Type 0} (create : Bytes → Option (List Bytes → S → S × Bytes)) where
  abbrev pub run : BusArguments → S → S × Bytes
  run malformed s = (s, encode_error (codes "ERR malformed command payload"))
  run (arguments []) s = (s, encode_error (codes "ERR empty command"))
  run (arguments (name ∷ args)) s =
      when_some (create (map lower name))
        (s, encode_error (codes "ERR unknown command '" ++ (map lower name ++ codes "'")))
        (λ command. command (name ∷ args) s)

  unfoldable pub execute_bus_command_line : Bytes → S → S × Bytes
  unfolding bus_arguments
  execute_bus_command_line cmd_line s = run (bus_arguments cmd_line) s

strings_of-bulks : (args : List Bytes) → strings_of (bulks args) ≡ args
unfolding strings_of as_string
strings_of-bulks [] = refl
strings_of-bulks (a ∷ args) = ap (λ as'. a ∷ as') (strings_of-bulks args)

parsed_back :
    (args : List Bytes)
    → length args ≤ max_array
    → AllShort args
    → parse new_parser (encode_array args) ≡ (new_parser, [], array (bulks args) ∷ [])
unfolding encode_arrays has_complete_command
parsed_back args few short =
    ap (parse new_parser)
      (sym (append-nil (encode_array args)) ∙ sym (append-nil (encode_array args ++ [])))
    ∙ parse-encode_arrays new_parser (args ∷ []) [] (few, short, tt) refl

bus_arguments-encode_array :
    (args : List Bytes)
    → length args ≤ max_array
    → AllShort args
    → bus_arguments (encode_array args) ≡ arguments args
unfolding bus_arguments encode_array
bus_arguments-encode_array args few short =
    ap (from_parsed (encode_array args)) (parsed_back args few short)
    ∙ ap arguments (strings_of-bulks args)

-- Letter by letter: A to Z become a to z, and every other byte stays.
abbrev pub IsLowerCaseOf : Bytes → Bytes → Type 0
IsLowerCaseOf [] [] = Unit {0}
IsLowerCaseOf [] (c ∷ s) = ⊥
IsLowerCaseOf (k ∷ known) [] = ⊥
IsLowerCaseOf (k ∷ known) (c ∷ s) =
    ((b'A' ≤ c) × (c ≤ b'Z') × (k ≡ c + 32) ⊎ ((c < b'A') ⊎ (b'Z' < c)) × (k ≡ c))
    × IsLowerCaseOf known s

lower-IsLowerCaseOf : (known s : Bytes) → IsLowerCaseOf known s → map lower s ≡ known
lower-IsLowerCaseOf [] [] h = refl
lower-IsLowerCaseOf [] (c ∷ s) h = elim h [ ]
lower-IsLowerCaseOf (k ∷ known) [] h = elim h [ ]
lower-IsLowerCaseOf (k ∷ known) (c ∷ s) (here, h) =
    let first : lower c ≡ k = ground (arith, here) in rw (first, lower-IsLowerCaseOf known s h) refl

-- A command with its arguments, at most 2^20 and each shorter than 2^63 bytes, that the master sends
-- with send_replication_args arrives at the replica argument for argument, whatever bytes they hold.
-- The command that the table has under the name in lower case is run on them; where it has none, the
-- reply says that the command is unknown, and the state stays.
pub execute_bus_command_line-encode_array :
    {S : Type 0} (create : Bytes → Option (List Bytes → S → S × Bytes)) (name known : Bytes)
    (args : List Bytes) (s : S)
    → IsLowerCaseOf known name
    → length (name ∷ args) ≤ max_array
    → AllShort (name ∷ args)
    → when_some
        (send_replication_args (name ∷ args))
        none
        (λ line. some (execute_bus_command_line create line s))
      ≡ some (
          when_some
            (create known)
            (s, encode_error (codes "ERR unknown command '" ++ known ++ codes "'"))
            (λ command. command (name ∷ args) s))
unfolding execute_bus_command_line send_replication_args
execute_bus_command_line-encode_array create name known args s same few short =
    ap (λ a. some (run create a s)) (bus_arguments-encode_array (name ∷ args) few short)
    ∙ rw
        (
          lower-IsLowerCaseOf known name same,
          append_assoc (codes "ERR unknown command '") known (codes "'"),
        )
        refl
