-- ===== src/Cluster/Link/Stream.antt =====
-- What the peer of a cluster link gets from a stream of frames (cluster/cluster_link.cpp).
use concurrent_cache.Prelude.{
  ℕ, zero, suc, ◌<◌, ◌≤◌, ◌≡◌, refl, sym, false, List, [], ◌∷◌, ◌++◌, map, arith, length, ◌∙◌, ap,
  append_assoc, append-nil, leb, tests, Bool-cases, inl, inr,
}
use concurrent_cache.Text.{Bytes}
use concurrent_cache.Cluster.Link.Header.{
  ClusterMsg, read_magic, read_msg_length, header_size, msg_magic,
}
use concurrent_cache.Cluster.Link.HeaderBytes.{word_at-append}
use concurrent_cache.Cluster.Link.Session.{
  ClusterLink, frame_bytes_of, turn, wait, read_complete, receive_loop, drained,
}
use concurrent_cache.Cluster.Link.Frames.{
  frame, sent_as, IsSendable, holding, read_magic-frame, read_msg_length-frame, length-frame,
}
use concurrent_cache.Cluster.Link.Turns.{turn-frame}

-- `s` is the first part of the message's frame.
abbrev pub Begins : Bytes → Bytes → ClusterMsg → Type 0
Begins s my_name msg =
    ((rest : Bytes) × (s ++ rest ≡ frame my_name msg)) × (length s < length (frame my_name msg))

module _ (my_name : Bytes) (msg : ClusterMsg) (ok : IsSendable msg) where
  prefix_of : (s rest : Bytes) → s ++ rest ≡ frame my_name msg → s ++ rest ≡ frame my_name msg ++ []
  prefix_of s rest e = e ∙ sym (append-nil (frame my_name msg))

  -- The header that has come is that of the frame.
  read_magic-partial :
      (s rest : Bytes)
      → s ++ rest ≡ frame my_name msg
      → header_size ≤ length s
      → read_magic s ≡ msg_magic
  unfolding read_magic
  read_magic-partial s rest e h =
      word_at-append 0 4 s rest (omega arith)
      ∙ ap read_magic (prefix_of s rest e)
      ∙ read_magic-frame my_name msg [] ok

  read_msg_length-partial :
      (s rest : Bytes)
      → s ++ rest ≡ frame my_name msg
      → header_size ≤ length s
      → read_msg_length s ≡ frame_bytes_of msg
  unfolding read_msg_length
  read_msg_length-partial s rest e h =
      word_at-append 8 4 s rest (omega arith)
      ∙ ap read_msg_length (prefix_of s rest e)
      ∙ read_msg_length-frame my_name msg [] ok

  -- Less than a frame is not complete.
  read_complete-partial :
      (s rest : Bytes) (link : ClusterLink)
      → s ++ rest ≡ frame my_name msg
      → length s < length (frame my_name msg)
      → read_complete (holding link s) ≡ (holding link s, false)
  unfolding read_complete
  read_complete-partial s rest link e h = elim (Bool-cases (leb header_size (length s))) [
    | inl b ↦
        rw
          (
            read_magic-partial s rest e (omega (tests, b)),
            read_msg_length-partial s rest e (omega (tests, b)),
          )
          (ground (arith, ok.small, length-frame my_name msg ok))
    | inr b ↦ ground arith
  ]

  pub turn-partial :
      (s rest : Bytes) (link : ClusterLink)
      → s ++ rest ≡ frame my_name msg
      → length s < length (frame my_name msg)
      → turn (holding link s) ≡ wait (holding link s)
  unfolding turn
  turn-partial s rest link e h = rw (read_complete-partial s rest link e h) refl

abbrev pub frames : Bytes → List ClusterMsg → Bytes
frames my_name [] = []
frames my_name (msg ∷ msgs) = frame my_name msg ++ frames my_name msgs

abbrev pub AreSendable : List ClusterMsg → Type 0
AreSendable [] = Unit {0}
AreSendable (msg ∷ msgs) = IsSendable msg × AreSendable msgs

pub receive_loop-frames :
    (my_name : Bytes) (msgs got : List ClusterMsg) (s : Bytes) (link : ClusterLink) (f : ℕ)
    → AreSendable msgs
    → length msgs < f
    → turn (holding link s) ≡ wait (holding link s)
    → receive_loop f (holding link (frames my_name msgs ++ s)) got
      ≡ drained (holding link s) (got ++ map (sent_as my_name) msgs)
unfolding receive_loop
receive_loop-frames my_name msgs got s link zero ok h e = absurd (omega arith)
receive_loop-frames my_name [] got s link (suc f) ok h e = rw (receive_loop, e, append-nil) refl
receive_loop-frames my_name (msg ∷ msgs) got s link (suc f) ok h e =
    rw
      (
        receive_loop,
        append_assoc (frame my_name msg) (frames my_name msgs) s,
        turn-frame my_name msg (frames my_name msgs ++ s) link ok.0,
        receive_loop-frames my_name msgs (got ++ sent_as my_name msg ∷ []) s link f ok.1
            (omega arith) e,
        append_assoc,
      )
      refl
