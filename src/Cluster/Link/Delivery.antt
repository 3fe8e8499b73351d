-- ===== src/Cluster/Link/Delivery.antt =====
-- handle_read over a stream that the network cuts anywhere (cluster/cluster_link.cpp).
use concurrent_cache.Prelude.{
  ℕ, suc, ◌+◌, ◌<◌, ◌≤◌, ◌≡◌, refl, sym, true, false, List, [], ◌∷◌, ◌++◌, map, map-append, arith,
  length, ◌∙◌, ap, length-append, append_assoc, append-nil, inl,
}
use concurrent_cache.Text.{Bytes}
use concurrent_cache.Cluster.Link.Header.{ClusterMsg}
use concurrent_cache.Cluster.Link.Session.{ClusterLink, new_link, receive_loop}
use concurrent_cache.Cluster.Link.Reading.{handle_read, bytes, check_pending, settle}
use concurrent_cache.Cluster.Link.Frames.{frame, sent_as, IsSendable, holding, length-frame}
use concurrent_cache.Cluster.Link.Stream.{frames, AreSendable, receive_loop-frames}
use concurrent_cache.Cluster.Link.Cuts.{Waits, turn-Waits, Cut, cut, length-Waits, Waits-end}
use concurrent_cache.Cluster.Link.Grace.{Steady, check_pending-Steady}
use concurrent_cache.Cluster.Link.Session.{send_msg}

-- The bytes of one `recv`, with the two clocks of its handle_read.
pub record Arrival : Type 0 where
  pub received_at : ℕ
  pub now : ℕ
  pub chunk : Bytes

unfoldable pub handle_reads : List Arrival → ClusterLink → ClusterLink × List ClusterMsg
handle_reads [] link = (link, [])
handle_reads (a ∷ arrivals) link =
    let (link1, got) = handle_read a.received_at a.now (bytes a.chunk) link in
    let (link2, more) = handle_reads arrivals link1 in (link2, got ++ more)

abbrev pub stream : List Arrival → Bytes
stream [] = []
stream (a ∷ arrivals) = a.chunk ++ stream arrivals

-- Every deadline check is less than the grace time after `start`.
abbrev pub AreWithin : ℕ → List Arrival → Type 0
AreWithin start [] = Unit {0}
AreWithin start (a ∷ arrivals) =
    ((start ≤ a.now) × (a.now < start + 10000)) × AreWithin start arrivals

-- An open link that holds these bytes.
abbrev ready : ClusterLink → Bytes → ClusterLink
ready link s = record link { connected = true; frame_invalid = false; recv_buffer = s }

ready_eq : (start : ℕ) (s : Bytes) (link : ClusterLink) → Steady start s link → link ≡ ready link s
ready_eq start s link steady = λ i. record link {
  connected = steady.is_connected i;
  frame_invalid = steady.is_valid i;
  recv_buffer = steady.holds i;
}

length-frames_ge :
    (my_name : Bytes) (msgs : List ClusterMsg)
    → AreSendable msgs
    → length msgs ≤ length (frames my_name msgs)
length-frames_ge my_name [] ok = omega arith
length-frames_ge my_name (msg ∷ msgs) ok = omega (
  arith,
  length-frames_ge my_name msgs ok.1,
  length-frame my_name msg ok.0,
  length-append (frame my_name msg) (frames my_name msgs),
)

handle_read-Cut :
    (my_name s r : Bytes) (msgs : List ClusterMsg) (a : Arrival) (link : ClusterLink)
    → (c : Cut my_name (s ++ a.chunk) r msgs)
    → handle_read a.received_at a.now (bytes a.chunk) (ready link s) ≡ (
      check_pending a.now (ready (record link { last_recv_time = a.received_at }) c.kept),
      map (sent_as my_name) c.whole,
    )
unfolding handle_read settle
handle_read-Cut my_name s r msgs a link c =
    let at_rest : ClusterLink = ready (record link { last_recv_time = a.received_at }) c.kept in
    let loop =
      receive_loop-frames my_name c.whole [] c.kept at_rest (suc (length (s ++ a.chunk))) c.whole_ok
        (omega (
          arith,
          length-frames_ge my_name c.whole c.whole_ok,
          length-append (frames my_name c.whole) c.kept,
          ap length c.bytes_eq,
        ))
        (turn-Waits my_name c.kept r c.left at_rest c.left_ok c.rest_eq c.waits) in
    ap (λ b. settle a.now (receive_loop (suc (length (s ++ a.chunk))) (holding at_rest b) []))
      c.bytes_eq
    ∙ ap (settle a.now) loop

-- What the arrivals leave: the link, open and with nothing pending, and the messages.
abbrev Delivered : Bytes → ℕ → List ClusterMsg → ClusterLink × List ClusterMsg → Type 0
Delivered my_name start msgs (link, got) = Steady start [] link × (got ≡ map (sent_as my_name) msgs)

begins-Waits : (my_name : Bytes) (msgs : List ClusterMsg) → AreSendable msgs → Waits my_name [] msgs
begins-Waits my_name [] ok = refl
begins-Waits my_name (msg ∷ msgs) ok = omega (arith, length-frame my_name msg ok.0)

handle_reads-Delivered :
    (my_name : Bytes) (start : ℕ) (arrivals : List Arrival) (s : Bytes) (msgs : List ClusterMsg)
    (link : ClusterLink)
    → AreSendable msgs
    → AreWithin start arrivals
    → Steady start s link
    → s ++ stream arrivals ≡ frames my_name msgs
    → Waits my_name s msgs
    → Delivered my_name start msgs (handle_reads arrivals link)
unfolding handle_reads
handle_reads-Delivered my_name start [] s msgs link ok within steady e w =
    let over = Waits-end my_name s msgs ok e w in (rw over.0 at steady, rw over.1 refl)
handle_reads-Delivered my_name start (a ∷ arrivals) s msgs link ok within steady e w =
    let c =
      cut my_name (s ++ a.chunk) (stream arrivals) msgs ok
        (append_assoc s a.chunk (stream arrivals) ∙ e) in
    let at_rest : ClusterLink = ready (record link { last_recv_time = a.received_at }) c.kept in
    let step =
      ap (handle_read a.received_at a.now (bytes a.chunk)) (ready_eq start s link steady)
      ∙ handle_read-Cut my_name s (stream arrivals) msgs a link c in
    let steady' =
      check_pending-Steady start a.now c.kept at_rest within.0.0 within.0.1
        (length-Waits my_name c.kept c.left c.left_ok c.waits)
        (record {
          is_connected = refl;
          is_valid = refl;
          holds = refl;
          is_recent = steady.is_recent;
        }) in
    let later =
      handle_reads-Delivered my_name start arrivals c.kept c.left (check_pending a.now at_rest)
        c.left_ok within.1 steady' c.rest_eq c.waits in
    rw step (
      later.0,
      ap (λ ms. map (sent_as my_name) c.whole ++ ms) later.1
          ∙ sym (map-append (sent_as my_name) c.whole c.left)
          ∙ ap (map (sent_as my_name)) (sym c.msgs_eq),
    )

send_msg-frame :
    (my_name : Bytes) (msg : ClusterMsg) (link : ClusterLink)
    → IsSendable msg
    → link.connected ≡ true
    → send_msg my_name msg link
      ≡ (record link { send_buffer = link.send_buffer ++ frame my_name msg }, true)
unfolding send_msg frame sent_as
send_msg-frame my_name msg link ok on = rw on (ground (arith, ok.small))

-- Calls of send_msg, one after the other.
unfoldable pub send_each : Bytes → List ClusterMsg → ClusterLink → ClusterLink
send_each my_name [] link = link
send_each my_name (msg ∷ msgs) link = send_each my_name msgs (send_msg my_name msg link).0

send_each-frames :
    (my_name : Bytes) (msgs : List ClusterMsg) (link : ClusterLink)
    → AreSendable msgs
    → link.connected ≡ true
    → (send_each my_name msgs link).send_buffer ≡ link.send_buffer ++ frames my_name msgs
unfolding send_each
send_each-frames my_name [] link ok on = sym (append-nil link.send_buffer)
send_each-frames my_name (msg ∷ msgs) link ok on =
    rw
      (
        send_each,
        send_msg-frame my_name msg link ok.0 on,
        send_each-frames my_name msgs
            (record link { send_buffer = link.send_buffer ++ frame my_name msg }) ok.1 on,
        append_assoc,
      )
      refl

-- Messages that each fit the bus and that one node sends to another with send_msg arrive there in
-- order and once, with the sender's name, however the network cuts the bytes, and the receiver's
-- link stays open with nothing pending, when its pause checks all fall within 10 s.
pub handle_reads-send_each :
    (my_name : Bytes) (start : ℕ) (arrivals : List Arrival) (msgs : List ClusterMsg)
    → AreSendable msgs
    → AreWithin start arrivals
    → stream arrivals ≡ (send_each my_name msgs new_link).send_buffer
    → ((handle_reads arrivals new_link).1 ≡ map (sent_as my_name) msgs)
      × (((handle_reads arrivals new_link).0.recv_buffer ≡ [])
          × ((handle_reads arrivals new_link).0.connected ≡ true))
handle_reads-send_each my_name start arrivals msgs ok within e =
    let all = e ∙ send_each-frames my_name msgs new_link ok refl in
    let result =
      handle_reads-Delivered my_name start arrivals [] msgs new_link ok within
        (record { is_connected = refl; is_valid = refl; holds = refl; is_recent = inl refl }) all
        (begins-Waits my_name msgs ok) in
    (result.1, (result.0.holds, result.0.is_connected))
