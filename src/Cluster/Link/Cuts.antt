-- ===== src/Cluster/Link/Cuts.antt =====
-- Where the bytes of a stream of frames may stop (cluster/cluster_link.cpp).
use concurrent_cache.Prelude.{
  ◌<◌, ◌≤◌, ◌≡◌, refl, sym, List, [], ◌∷◌, ◌++◌, arith, length, drop, ◌∙◌, ap, length-append,
  append_assoc, ltb, tests, Bool-cases, inl, inr, cut_shorter,
}
use concurrent_cache.Text.{Bytes}
use concurrent_cache.Cluster.Link.Header.{ClusterMsg, max_packet_bytes}
use concurrent_cache.Cluster.Link.Session.{ClusterLink, turn, wait, read_complete}
use concurrent_cache.Cluster.Link.Frames.{frame, holding, length-frame}
use concurrent_cache.Cluster.Link.Stream.{frames, AreSendable, turn-partial}

-- Less than the first frame is kept.
abbrev pub Waits : Bytes → Bytes → List ClusterMsg → Type 0
Waits my_name s [] = s ≡ []
Waits my_name s (msg ∷ msgs) = length s < length (frame my_name msg)

pub turn-Waits :
    (my_name s r : Bytes) (msgs : List ClusterMsg) (link : ClusterLink)
    → AreSendable msgs
    → s ++ r ≡ frames my_name msgs
    → Waits my_name s msgs
    → turn (holding link s) ≡ wait (holding link s)
unfolding turn read_complete
turn-Waits my_name s r [] link ok e w = rw w refl
turn-Waits my_name s r (msg ∷ msgs) link ok e w =
    turn-partial my_name msg ok.0 s (drop (length s) (frame my_name msg)) link
      (cut_shorter s r (frame my_name msg) (frames my_name msgs) e (omega arith)).0 w

-- What has come of a stream: whole frames, and the beginning of the next.
pub record Cut (my_name b r : Bytes) (msgs : List ClusterMsg) : Type 0 where
  pub whole : List ClusterMsg
  pub left : List ClusterMsg
  pub kept : Bytes
  pub msgs_eq : msgs ≡ whole ++ left
  pub bytes_eq : b ≡ frames my_name whole ++ kept
  pub rest_eq : kept ++ r ≡ frames my_name left
  pub waits : Waits my_name kept left
  pub whole_ok : AreSendable whole
  pub left_ok : AreSendable left

pub cut :
    (my_name b r : Bytes) (msgs : List ClusterMsg)
    → AreSendable msgs
    → b ++ r ≡ frames my_name msgs
    → Cut my_name b r msgs
cut my_name [] r [] ok e = record {
  whole = [];
  left = [];
  kept = [];
  msgs_eq = refl;
  bytes_eq = refl;
  rest_eq = e;
  waits = refl;
  whole_ok = tt;
  left_ok = tt;
}
cut my_name (c ∷ b) r [] ok e = absurd cc
cut my_name b r (msg ∷ msgs) ok e =
    let ours = frame my_name msg in
    elim (Bool-cases (ltb (length b) (length ours))) [
      | inl short ↦ record {
        whole = [];
        left = msg ∷ msgs;
        kept = b;
        msgs_eq = refl;
        bytes_eq = refl;
        rest_eq = e;
        waits = omega (tests, short);
        whole_ok = tt;
        left_ok = ok;
      }
      | inr long ↦
          let behind = drop (length ours) b in
          let parts = cut_shorter ours (frames my_name msgs) b r (sym e) (ground arith) in
          let later = cut my_name behind r msgs ok.1 (sym parts.1) in
          record {
            whole = msg ∷ later.whole;
            left = later.left;
            kept = later.kept;
            msgs_eq = ap (λ ms. msg ∷ ms) later.msgs_eq;
            bytes_eq =
                sym parts.0
                ∙ ap (λ t. ours ++ t) later.bytes_eq
                ∙ sym (append_assoc ours (frames my_name later.whole) later.kept);
            rest_eq = later.rest_eq;
            waits = later.waits;
            whole_ok = (ok.0, later.whole_ok);
            left_ok = later.left_ok;
          }
    ]

pub length-Waits :
    (my_name s : Bytes) (msgs : List ClusterMsg)
    → AreSendable msgs
    → Waits my_name s msgs
    → length s ≤ max_packet_bytes
length-Waits my_name s [] ok w = rw w (omega arith)
length-Waits my_name s (msg ∷ msgs) ok w =
    omega (arith, w, ok.0.small, length-frame my_name msg ok.0)

-- With nothing more to come, nothing is left.
pub Waits-end :
    (my_name s : Bytes) (msgs : List ClusterMsg)
    → AreSendable msgs
    → s ++ [] ≡ frames my_name msgs
    → Waits my_name s msgs
    → (s ≡ []) × (msgs ≡ [])
Waits-end my_name s [] ok e w = (w, refl)
Waits-end my_name s (msg ∷ msgs) ok e w = absurd (
    omega (
      arith,
      w,
      ap length e,
      length-append s [],
      length-append (frame my_name msg) (frames my_name msgs),
    ))
