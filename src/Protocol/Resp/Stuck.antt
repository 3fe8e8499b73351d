-- ===== src/Protocol/Resp/Stuck.antt =====
-- Inputs that the parser does not get past.
use concurrent_cache.Prelude.{
  ℕ, suc, ◌≤◌, ◌≡◌, refl, true, false, none, [], ◌∷◌, ◌++◌, arith, length, length-append, ltb,
}
use concurrent_cache.Text.{Bytes, Lacks, codes}
use concurrent_cache.Text.Stoll.{stoll}
use concurrent_cache.Protocol.Resp.Scan.{
  cr, lf, has_complete_command, complete_line, first_line_error,
}
use concurrent_cache.Protocol.Resp.Lines.{cut_line-line}
use concurrent_cache.Protocol.Resp.Parser.{
  RespParser, parse, parse_loop, parse_one, by_type, parse_integer, has_protocol_error, fail,
}

-- A `:` line that std::stoll refuses.
abbrev pub bad_integer : Bytes → Bytes → Bytes
bad_integer line rest = b':' ∷ (line ++ cr ∷ lf ∷ rest)

bad_integer_complete :
    (line rest : Bytes)
    → Lacks cr line
    → 1 ≤ length line
    → has_complete_command (bad_integer line rest) ≡ true
unfolding has_complete_command complete_line
bad_integer_complete line rest l some_byte =
    rw (short line rest some_byte, cut_line-line line rest l) refl
  where
    short :
        (line rest : Bytes)
        → 1 ≤ length line
        → ltb (suc (length (line ++ cr ∷ lf ∷ rest))) 4 ≡ false
    short line rest h = ground (arith, length-append line (cr ∷ lf ∷ rest))

refused :
    (p : RespParser) (line rest : Bytes)
    → Lacks cr line
    → stoll line ≡ none
    → parse_one 32 p (bad_integer line rest)
      ≡ (record p { error_msg = codes "Invalid integer: " ++ line }, bad_integer line rest, none)
unfolding parse_one by_type parse_integer fail
refused p line rest l bad = rw (cut_line-line line rest l, parse_integer, bad) refl

stuck :
    (fuel : ℕ) (p : RespParser) (line rest : Bytes)
    → Lacks cr line
    → 1 ≤ length line
    → stoll line ≡ none
    → parse_loop (suc fuel) p (bad_integer line rest)
      ≡ (record p { error_msg = codes "Invalid integer: " ++ line }, bad_integer line rest, [])
unfolding parse_loop
stuck fuel p line rest l some_byte bad =
    rw (bad_integer_complete line rest l some_byte, parse_loop, refused p line rest l bad) refl

-- A connection whose buffer begins with a complete `:` line that is no integer never gets past it: the
-- line is no protocol error, and `parse` notes an error, returns no command and leaves every byte,
-- also those of the commands behind it.
pub parse-bad_integer :
    (p : RespParser) (line rest : Bytes)
    → p.protocol_error ≡ []
    → Lacks cr line
    → 1 ≤ length line
    → stoll line ≡ none
    → ((has_protocol_error p (bad_integer line rest)).1 ≡ false)
      × (parse p (bad_integer line rest)
          ≡ (record p { error_msg = codes "Invalid integer: " ++ line }, bad_integer line rest, []))
unfolding has_protocol_error first_line_error parse
parse-bad_integer p line rest clean l some_byte bad =
    (rw clean refl, stuck (length (line ++ cr ∷ lf ∷ rest)) p line rest l some_byte bad)
