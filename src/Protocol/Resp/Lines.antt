-- ===== src/Protocol/Resp/Lines.antt =====
-- What the encoder writes, read line by line.
use concurrent_cache.Prelude.{
  ℕ, suc, ◌+◌, ◌^◌, ◌<◌, ◌≡◌, refl, sym, ap, ◌∙◌, false, some, [], ◌∷◌, ◌++◌, append-nil, arith,
  ltb, length, take, drop, take-length-append, drop-length-append, drop-drop, length-append, ℤ, pos,
  negsuc,
}
use concurrent_cache.Text.{Bytes, Lacks}
use concurrent_cache.Text.Decimal.{to_string, to_string_ℤ, Lacks-to_string}
use concurrent_cache.Text.Stoll.{stoll, stoll-to_string_ℤ}
use concurrent_cache.Protocol.Resp.Scan.{find_crlf, cut_line, parse_int64_safe, cr, lf}

find_crlf-line :
    (line rest : Bytes) → Lacks cr line → find_crlf (line ++ cr ∷ lf ∷ rest) ≡ some (length line)
unfolding find_crlf
find_crlf-line [] rest h = refl
find_crlf-line (a ∷ []) rest h = ground (arith, find_crlf-line [] rest tt)
find_crlf-line (a ∷ b ∷ line) rest h = ground (arith, find_crlf-line (b ∷ line) rest)

behind_line : (line rest : Bytes) → drop (length line + 2) (line ++ cr ∷ lf ∷ rest) ≡ rest
behind_line line rest =
    sym (drop-drop (length line) 2 (line ++ cr ∷ lf ∷ rest))
    ∙ ap (λ z. drop 2 z) (drop-length-append line (cr ∷ lf ∷ rest))

-- A line with no carriage return is cut off whole.
pub cut_line-line :
    (line rest : Bytes) → Lacks cr line → cut_line (line ++ cr ∷ lf ∷ rest) ≡ some (line, rest)
unfolding cut_line
cut_line-line line rest h =
    rw (find_crlf-line line rest h, take-length-append line (cr ∷ lf ∷ rest), behind_line line rest)
      refl

pub Lacks-to_string_ℤ : (v : ℤ) → Lacks cr (to_string_ℤ v)
unfolding to_string_ℤ
Lacks-to_string_ℤ (pos n) = Lacks-to_string cr n refl
Lacks-to_string_ℤ (negsuc n) = (ground arith, Lacks-to_string cr (suc n) refl)

read : (n : ℕ) → n < 2 ^ 63 → stoll (to_string n) ≡ some (pos n, [])
unfolding to_string_ℤ
read n h =
    ap stoll (sym (append-nil (to_string n))) ∙ stoll-to_string_ℤ (pos n) [] (omega arith) refl

pub parse_int64_safe-to_string :
    (n : ℕ) → n < 2 ^ 63 → parse_int64_safe (to_string n) ≡ some (pos n)
unfolding parse_int64_safe
parse_int64_safe-to_string n h = rw (read n h) refl

-- The content of a bulk string, and what stands behind it.
pub content : (s rest : Bytes) → take (length s) (s ++ cr ∷ lf ∷ rest) ≡ s
content s rest = take-length-append s (cr ∷ lf ∷ rest)

pub behind : (s rest : Bytes) → drop (length s + 2) (s ++ cr ∷ lf ∷ rest) ≡ rest
behind s rest = behind_line s rest

pub room : (s rest : Bytes) → ltb (length (s ++ cr ∷ lf ∷ rest)) (length s + 2) ≡ false
room s rest = ground (arith, length-append s (cr ∷ lf ∷ rest))
