-- ===== src/Cluster/Link/Progress.antt =====
-- The loop of handle_read ends, whatever bytes a peer sends (cluster/cluster_link.cpp).
use concurrent_cache.Prelude.{
  ℕ, zero, suc, ◌-◌, ◌<◌, ◌≤◌, ◌≡◌, ◌≢◌, refl, Bool, true, false, Option, none, some, List, [], ◌∷◌,
  ◌++◌, arith, length, take, drop, length-drop, if◌then◌else◌, leb, ltb, ◌==◌, tests, Bool-cases,
  inl, inr,
}
use concurrent_cache.Text.{Bytes}
use concurrent_cache.Cluster.Link.Header.{
  ClusterMsg, ClusterMsgHeader, read_header, read_magic, read_msg_length, header_size, msg_magic,
}
use concurrent_cache.Cluster.Link.Session.{
  ClusterLink, turn, Turn, wait, received, broken, read_complete, decode_msg, decode_with,
  decode_by_version, receive_loop, drained, severed, out_of_fuel, length_is_bad, deliver,
}

-- A turn that delivers a message leaves less than `n` bytes.
abbrev Shrinks : ℕ → Turn → Type 0
Shrinks n (wait link) = Unit {0}
Shrinks n (received msg link) = length link.recv_buffer < n
Shrinks n (broken link) = Unit {0}

-- A complete frame has its header, and all its bytes are there.
read_complete-full :
    (link : ClusterLink)
    → (read_complete link).1 ≡ true
    → (read_complete link ≡ (link, true))
      × ((header_size ≤ read_msg_length link.recv_buffer)
          × (read_msg_length link.recv_buffer ≤ length link.recv_buffer))
unfolding read_complete
read_complete-full link h = elim (Bool-cases (ltb (length link.recv_buffer) header_size)) [
  | inl few ↦ (let no : false ≡ true = rw (few) at h in absurd cc)
  | inr all ↦ elim (Bool-cases (read_magic link.recv_buffer == msg_magic)) [
    | inr other ↦ (let no : false ≡ true = rw (all, other) at h in absurd cc)
    | inl magic ↦ elim (Bool-cases (length_is_bad (read_msg_length link.recv_buffer))) [
      | inl bad ↦ (let no : false ≡ true = rw (all, magic, bad) at h in absurd cc)
      | inr good ↦
          let come : leb (read_msg_length link.recv_buffer) (length link.recv_buffer) ≡ true =
            rw (all, magic, good) at h in
          (rw (all, magic, good, come) refl, (ground arith, omega (tests, come)))
    ]
  ]
]

deliver-Shrinks :
    (link : ClusterLink) (header : ClusterMsgHeader) (args : Option (List Bytes))
    → 0 < header.msg_length
    → header.msg_length ≤ length link.recv_buffer
    → Shrinks (length link.recv_buffer) (deliver link header args)
deliver-Shrinks link header none h le = tt
deliver-Shrinks link header (some args) h le =
    omega (arith, length-drop header.msg_length link.recv_buffer)

decode_with-Shrinks :
    (link : ClusterLink) (header : ClusterMsgHeader)
    → header.msg_length ≤ length link.recv_buffer
    → Shrinks (length link.recv_buffer) (decode_with header link)
unfolding decode_with
decode_with-Shrinks link header le = elim (Bool-cases (ltb header.msg_length header_size)) [
  | inl b ↦ rw b tt
  | inr b ↦ rw b (
      deliver-Shrinks link header
        (decode_by_version header.version
          (take (header.msg_length - header_size) (drop header_size link.recv_buffer)))
        (ground arith) le)
]

read_header-length : (s : Bytes) → (read_header s).msg_length ≡ read_msg_length s
unfolding read_header
read_header-length s = refl

decode_msg-Shrinks :
    (link : ClusterLink)
    → (read_complete link).1 ≡ true
    → Shrinks (length link.recv_buffer) (decode_msg link)
unfolding decode_msg
decode_msg-Shrinks link h =
    let found = read_complete-full link h in
    rw (found.0) (
      decode_with-Shrinks link (read_header link.recv_buffer)
        (omega (arith, read_header-length link.recv_buffer, found.1.1)))

broken_or-Shrinks :
    (n : ℕ) (bad : Bool) (link : ClusterLink) (t : Turn)
    → Shrinks n t
    → Shrinks n (if bad then broken link else t)
broken_or-Shrinks n true link t h = tt
broken_or-Shrinks n false link t h = h

read-Shrinks :
    (link : ClusterLink)
    → Shrinks (length link.recv_buffer) (
        let (link', complete) = read_complete link in
        if complete
        then decode_msg link'
        else (if link'.frame_invalid then broken link' else wait link'))
read-Shrinks link = elim (Bool-cases (read_complete link).1) [
  | inl whole ↦ rw ((read_complete-full link whole).0) (decode_msg-Shrinks link whole)
  | inr part ↦ rw part (
      broken_or-Shrinks (length link.recv_buffer) (read_complete link).0.frame_invalid
        (read_complete link).0 (wait (read_complete link).0) tt)
]

turn-Shrinks : (link : ClusterLink) → Shrinks (length link.recv_buffer) (turn link)
unfolding turn
turn-Shrinks link =
    broken_or-Shrinks (length link.recv_buffer) link.frame_invalid link _ (read-Shrinks link)

after_turn :
    (f : ℕ) (got : List ClusterMsg) (n : ℕ) (t : Turn)
    → Shrinks n t
    → n ≤ f
    → ((link : ClusterLink) (got : List ClusterMsg)
        → length link.recv_buffer < f
        → receive_loop f link got ≢ out_of_fuel)
    → elim t [
      | wait link' ↦ drained link' got
      | received msg link' ↦ receive_loop f link' (got ++ msg ∷ [])
      | broken link' ↦ severed link' got
    ]
      ≢ out_of_fuel
after_turn f got n (wait link) h le again = λ e. cc
after_turn f got n (received msg link) h le again = again link (got ++ msg ∷ []) (omega (arith, h))
after_turn f got n (broken link) h le again = λ e. cc

-- The loop over the received frames ends, whatever bytes the peer sent and whatever the state of the
-- link: one turn more than there are bytes in the buffer is enough.
pub receive_loop_enough :
    (f : ℕ) (link : ClusterLink) (got : List ClusterMsg)
    → length link.recv_buffer < f
    → receive_loop f link got ≢ out_of_fuel
unfolding receive_loop
receive_loop_enough zero link got h = absurd (omega arith)
receive_loop_enough (suc f) link got h =
    after_turn f got (length link.recv_buffer) (turn link) (turn-Shrinks link) (omega arith)
      (receive_loop_enough f)
