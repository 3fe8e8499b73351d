-- ===== src/Cluster/Link/HeaderBytes.antt =====
-- The bytes of a ClusterMsgHeader (cluster/cluster_link.h).
use concurrent_cache.Prelude.{
  ℕ, ◌+◌, ◌≤◌, ◌≡◌, refl, sym, ◌++◌, arith, length, take, drop, ◌∙◌, ap, length-append,
  take-append_eq, drop-length-append, append_assoc, drop-append_le, drop-drop, take-append_le,
  length-drop,
}
use concurrent_cache.Text.{Bytes}
use concurrent_cache.Text.Words.{from_little_endian, from_little_endian-little_endian}
use concurrent_cache.Cluster.Link.Header.{
  ClusterMsgHeader, FitsHeader, put_header, read_header, read_magic, read_msg_length, header_size,
  tail_of, word_at,
}

-- A field of `n` bytes in front of others.
drop_field : (n k : ℕ) (xs ys : Bytes) → length xs ≡ n → drop (n + k) (xs ++ ys) ≡ drop k ys
drop_field n k xs ys e =
    sym (drop-drop n k (xs ++ ys)) ∙ ap (drop k) (rw (sym e) (drop-length-append xs ys))

abbrev word_of : ℕ → ℕ → Bytes → ℕ
word_of k w s = from_little_endian (take w (drop k s))

behind_name :
    (h : ClusterMsgHeader) (rest : Bytes) (k w : ℕ)
    → FitsHeader h
    → word_of (40 + k) w (h.sender_name ++ tail_of h rest) ≡ word_of k w (tail_of h rest)
behind_name h rest k w fits =
    ap (λ t. from_little_endian (take w t))
      (drop_field 40 k h.sender_name (tail_of h rest) fits.name_fits)

pub read_header-put_header :
    (h : ClusterMsgHeader) (rest : Bytes) → FitsHeader h → read_header (put_header h rest) ≡ h
unfolding read_header put_header read_magic read_msg_length
read_header-put_header h rest fits = λ i. record {
  magic = from_little_endian-little_endian 4 h.magic fits.magic_fits i;
  version = from_little_endian-little_endian 2 h.version fits.version_fits i;
  type_code = from_little_endian-little_endian 2 h.type_code fits.type_fits i;
  msg_length = from_little_endian-little_endian 4 h.msg_length fits.length_fits i;
  sender_epoch = from_little_endian-little_endian 8 h.sender_epoch fits.epoch_fits i;
  sender_name = take-append_eq 40 h.sender_name (tail_of h rest) fits.name_fits i;
  flags =
      (behind_name h rest 0 2 fits ∙ from_little_endian-little_endian 2 h.flags fits.flags_fits) i;
  port = (behind_name h rest 2 2 fits ∙ from_little_endian-little_endian 2 h.port fits.port_fits) i;
  state =
      (behind_name h rest 4 4 fits ∙ from_little_endian-little_endian 4 h.state fits.state_fits) i;
  slot_map =
      (ap (take 2048) (drop_field 40 8 h.sender_name (tail_of h rest) fits.name_fits)
          ∙ take-append_eq 2048 h.slot_map rest fits.slots_fit)
        i;
}

pub drop-put_header :
    (h : ClusterMsgHeader) (rest : Bytes)
    → FitsHeader h
    → drop header_size (put_header h rest) ≡ rest
unfolding put_header
drop-put_header h rest fits =
    drop_field 40 2056 h.sender_name (tail_of h rest) fits.name_fits
    ∙ drop_field 2048 0 h.slot_map rest fits.slots_fit

pub length-put_header :
    (h : ClusterMsgHeader) (rest : Bytes)
    → FitsHeader h
    → length (put_header h rest) ≡ header_size + length rest
unfolding put_header
length-put_header h rest fits = omega (
  arith,
  length-append h.sender_name (tail_of h rest),
  length-append h.slot_map rest,
  fits.name_fits,
  fits.slots_fit,
)

pub put_header-append :
    (h : ClusterMsgHeader) (s rest : Bytes) → put_header h s ++ rest ≡ put_header h (s ++ rest)
unfolding put_header
put_header-append h s rest =
    rw (append_assoc h.sender_name (tail_of h s) rest, append_assoc h.slot_map s rest) refl

-- A word that lies in a prefix is read from it alone.
pub word_at-append :
    (offset w : ℕ) (p more : Bytes)
    → offset + w ≤ length p
    → word_at offset w p ≡ word_at offset w (p ++ more)
word_at-append offset w p more h = rw (drop-append_le offset p more (omega arith)) (
    ap from_little_endian
      (sym (take-append_le w (drop offset p) more (omega (arith, length-drop offset p)))))
