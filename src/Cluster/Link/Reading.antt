-- ===== src/Cluster/Link/Reading.antt =====
-- cluster/cluster_link.cpp: handle_read with the deadline of a partial frame, and handle_write. The
-- results of `recv` and `send` and the clock are arguments.
use concurrent_cache.Prelude.{
  ℕ, suc, ◌+◌, ◌-◌, ◌*◌, ◌/◌, Bool, false, ◌&&◌, ◌||◌, not, List, [], ◌∷◌, ◌++◌, ◌==◌, ltb, leb,
  if◌then◌else◌, length, drop,
}
use concurrent_cache.Text.{Bytes}
use concurrent_cache.Cluster.Link.Header.{
  ClusterMsg, msg_magic, max_packet_bytes, header_size, read_magic, read_msg_length,
}
use concurrent_cache.Cluster.Link.Session.{
  ClusterLink, Received, drained, severed, out_of_fuel, receive_loop, new_link,
}

-- kPartialFrameGraceMs, kPartialFrameMinBytesPerSec
abbrev pub partial_frame_grace_ms : ℕ
partial_frame_grace_ms = 10000

abbrev pub partial_frame_min_bytes_per_sec : ℕ
partial_frame_min_bytes_per_sec = 1024 * 1024

abbrev pub limit_ms : ℕ → ℕ
limit_ms declared_len =
    partial_frame_grace_ms + (declared_len / partial_frame_min_bytes_per_sec) * 1000

unfoldable pub reset_partial_frame_accounting : ClusterLink → ClusterLink
reset_partial_frame_accounting link = record link {
  partial_frame_since_ms = 0;
  partial_frame_bytes = 0;
  partial_frame_declared = 0;
}

-- A frame is accounted for from now on.
abbrev pub starts_accounting : ℕ → ℕ → ClusterLink → Bool
starts_accounting declared_len buffered link =
    link.partial_frame_since_ms == 0
    || (not (declared_len == link.partial_frame_declared) || ltb buffered link.partial_frame_bytes)

unfoldable pub partial_frame_expired : ℕ → ℕ → ℕ → ClusterLink → ClusterLink × Bool
unfolding reset_partial_frame_accounting
partial_frame_expired declared_len buffered now_ms link =
    if declared_len == 0
    then (reset_partial_frame_accounting link, false)
    else if starts_accounting declared_len buffered link
    then (
      record link {
        partial_frame_since_ms = now_ms;
        partial_frame_bytes = buffered;
        partial_frame_declared = declared_len;
      },
      false,
    )
    else (
      record link { partial_frame_bytes = buffered },
      leb (limit_ms declared_len) (now_ms - link.partial_frame_since_ms),
    )

-- The declared length of the frame that is pending in the buffer, or 0.
unfoldable pub pending_frame : Bytes → ℕ
unfolding read_magic read_msg_length
pending_frame s =
    if leb header_size (length s)
    then (if read_magic s == msg_magic && ltb (length s) (read_msg_length s)
        then read_msg_length s
        else 0)
    else (if ltb 0 (length s) then header_size else 0)

-- The link closed, with the messages that the callback got before.
abbrev pub disconnect : ClusterLink → ClusterLink
disconnect link = record link { connected = false }

abbrev pub keep_or_disconnect : ClusterLink × Bool → ClusterLink
keep_or_disconnect (link, expired) = if expired then disconnect link else link

-- What handle_read does behind the loop.
unfoldable pub check_pending : ℕ → ClusterLink → ClusterLink
check_pending now link =
    let pending = length link.recv_buffer in
    if ltb max_packet_bytes pending
    then disconnect link
    else keep_or_disconnect
        (partial_frame_expired (pending_frame link.recv_buffer) pending now link)

unfoldable pub settle : ℕ → Received → ClusterLink × List ClusterMsg
settle now (drained link got) = (check_pending now link, got)
settle now (severed link got) = (disconnect link, got)
settle now out_of_fuel = (new_link, [])

-- What `recv` may give.
pub data Recv : Type 0 where
  bytes : Bytes → Recv
  closed : Recv
  would_block : Recv
  failed : Recv

-- `received_at` is the clock of update_last_recv_time, `now` the one behind the loop.
unfoldable pub handle_read : ℕ → ℕ → Recv → ClusterLink → ClusterLink × List ClusterMsg
handle_read received_at now (bytes s) link =
    let buffer = link.recv_buffer ++ s in
    if not link.connected
    then (link, [])
    else settle now (
        receive_loop (suc (length buffer))
          (record link { recv_buffer = buffer; last_recv_time = received_at }) [])
handle_read received_at now closed link = (disconnect link, [])
handle_read received_at now would_block link = (link, [])
handle_read received_at now failed link = (disconnect link, [])

-- What a call of `send` may give.
pub data Sent : Type 0 where
  taken : ℕ → Sent
  closed_by_peer : Sent
  no_room : Sent
  send_failed : Sent

-- The loop of handle_write over the results of the calls of `send`, made while bytes remain.
unfoldable pub write_loop : List Sent → ClusterLink → ClusterLink
write_loop [] link = link
write_loop (taken n ∷ results) link =
    write_loop results (record link { send_buffer = drop n link.send_buffer })
write_loop (no_room ∷ results) link = link
write_loop (closed_by_peer ∷ results) link =
    if ltb 0 (length link.send_buffer) then disconnect link else link
write_loop (send_failed ∷ results) link =
    if ltb 0 (length link.send_buffer) then disconnect link else link

unfoldable pub handle_write : List Sent → ClusterLink → ClusterLink
unfolding write_loop
handle_write results link = if link.connected then write_loop results link else link
