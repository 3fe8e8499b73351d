-- ===== src/Cluster/Link/Session.antt =====
-- cluster/cluster_link.cpp: a link's state and its two ends, send_msg and handle_read. The two
-- buffers are their readable bytes (Network.Buffer shows that the class is such a queue). The clock,
-- the bytes of `recv` and the node's own name are arguments; the messages that the callback gets are
-- in the result, and the counters of ClusterState are the number of these.
use concurrent_cache.Prelude.{
  ℕ, zero, suc, ◌+◌, ◌-◌, Bool, true, false, ◌&&◌, ◌||◌, not, Option, none, some, List, [], ◌∷◌,
  ◌++◌, ◌==◌, ltb, leb, if◌then◌else◌, length, take, drop, get_or,
}
use concurrent_cache.Text.{Bytes, index_of}
use concurrent_cache.Text.Decimal.{to_string}
use concurrent_cache.Cluster.Link.{
  Decoded, decoded, malformed, bus_args_frame_bytes, bus_args_encode, bus_args_decode,
  bus_args_decode_legacy,
}
use concurrent_cache.Cluster.Link.Header.{
  ClusterMsgHeader, ClusterMsg, new_msg, msg_magic, bus_framing_version, bus_framing_legacy_version,
  max_packet_bytes, header_size, put_header, read_header, read_magic, read_msg_length,
}

pub record ClusterLink : Type 0 where
  pub connected : Bool
  pub last_recv_time : ℕ
  pub send_buffer : Bytes
  pub recv_buffer : Bytes
  pub frame_invalid : Bool
  pub partial_frame_since_ms : ℕ
  pub partial_frame_bytes : ℕ
  pub partial_frame_declared : ℕ

abbrev pub new_link : ClusterLink
new_link = record {
  connected = true;
  last_recv_time = 0;
  send_buffer = [];
  recv_buffer = [];
  frame_invalid = false;
  partial_frame_since_ms = 0;
  partial_frame_bytes = 0;
  partial_frame_declared = 0;
}

-- The text that `%s` prints: up to the first NUL.
abbrev pub cut_at : Bytes → Option ℕ → Bytes
cut_at s none = s
cut_at s (some n) = take n s

unfoldable pub c_string : Bytes → Bytes
c_string s = cut_at s (index_of 0 s)

-- `snprintf(field, sizeof(field), "%s", name)` into a field of 40 bytes.
unfoldable pub print_name : Bytes → Bytes → Bytes
unfolding c_string
print_name field name =
    let text = take 39 (c_string name) in text ++ 0 ∷ drop (suc (length text)) field

-- The sender's name, unless it is set already.
unfoldable pub fill_sender : Bytes → Bytes → Bytes
unfolding print_name
fill_sender my_name field =
    if get_or field 0 0 == 0 && ltb 0 (length my_name) then print_name field my_name else field

-- The header that goes out: the frame's length and version are set here.
unfoldable pub outgoing : Bytes → ℕ → ClusterMsgHeader → ClusterMsgHeader
unfolding fill_sender
outgoing my_name frame_bytes h = record h {
  sender_name = fill_sender my_name h.sender_name;
  msg_length = frame_bytes;
  version = bus_framing_version;
}

abbrev pub frame_bytes_of : ClusterMsg → ℕ
frame_bytes_of msg = header_size + bus_args_frame_bytes msg.args

unfoldable pub send_msg : Bytes → ClusterMsg → ClusterLink → ClusterLink × Bool
unfolding outgoing bus_args_frame_bytes bus_args_encode put_header
send_msg my_name msg link =
    if not link.connected || ltb max_packet_bytes (frame_bytes_of msg) then (link, false) else (
      record link {
        send_buffer =
            link.send_buffer
            ++ put_header (outgoing my_name (frame_bytes_of msg) msg.header)
                (bus_args_encode msg.args []);
      },
      true,
    )

abbrev typed_msg : ℕ → List Bytes → ClusterMsg
unfolding new_msg
typed_msg code args = record { header = record new_msg.header { type_code = code }; args = args }

unfoldable send_ping : Bytes → ClusterLink → ClusterLink × Bool
unfolding send_msg
send_ping my_name = send_msg my_name (typed_msg 1 [])

unfoldable send_pong : Bytes → ClusterLink → ClusterLink × Bool
unfolding send_msg
send_pong my_name = send_msg my_name (typed_msg 2 [])

unfoldable send_meet : Bytes → Bytes → ℕ → ClusterLink → ClusterLink × Bool
unfolding send_msg to_string
send_meet my_name my_ip my_port = send_msg my_name (typed_msg 3 (my_ip ∷ to_string my_port ∷ []))

unfoldable send_raw : Bytes → ClusterLink → ClusterLink × Bool
send_raw bytes link =
    if link.connected
    then (record link { send_buffer = link.send_buffer ++ bytes }, true)
    else (link, false)

-- A frame may start here: its first byte, room for a header, and the magic.
abbrev pub frame_starts : Bytes → Bool
unfolding read_magic
frame_starts s =
    get_or s 0 0 == msg_magic && (leb header_size (length s) && read_magic s == msg_magic)

-- The bytes that stay after the search for the next frame.
unfoldable pub skip_junk : Bytes → Bytes
skip_junk [] = []
skip_junk (b ∷ s) = let later = skip_junk s in if frame_starts (b ∷ s) then b ∷ s else later

abbrev pub length_is_bad : ℕ → Bool
length_is_bad msg_len = ltb msg_len header_size || ltb max_packet_bytes msg_len

unfoldable pub read_complete : ClusterLink → ClusterLink × Bool
read_complete link =
    let s = link.recv_buffer in
    let msg_len = read_msg_length s in
    if ltb (length s) header_size
    then (link, false)
    else if not (read_magic s == msg_magic)
    then (record link { recv_buffer = skip_junk s }, false)
    else if length_is_bad msg_len
    then (record link { frame_invalid = true }, false)
    else (link, leb msg_len (length s))

-- The arguments by the header's version; `none` is a malformed frame.
abbrev pub args_result : Decoded (List Bytes) → Option (List Bytes)
args_result (decoded args rest) = some args
args_result (malformed err) = none

unfoldable pub decode_by_version : ℕ → Bytes → Option (List Bytes)
unfolding bus_args_decode bus_args_decode_legacy
decode_by_version version s =
    if version == bus_framing_version
    then args_result (bus_args_decode s)
    else if version == bus_framing_legacy_version
    then some (bus_args_decode_legacy s)
    else none

-- One turn of the loop of handle_read.
pub data Turn : Type 0 where
  wait : ClusterLink → Turn
  received : ClusterMsg → ClusterLink → Turn
  broken : ClusterLink → Turn

abbrev pub deliver : ClusterLink → ClusterMsgHeader → Option (List Bytes) → Turn
deliver link header none = broken link
deliver link header (some args) =
    received (record { header = header; args = args })
      (record link { recv_buffer = drop header.msg_length link.recv_buffer })

unfoldable pub decode_with : ClusterMsgHeader → ClusterLink → Turn
decode_with header link =
    if ltb header.msg_length header_size
    then broken link
    else deliver link header (
        decode_by_version header.version
          (take (header.msg_length - header_size) (drop header_size link.recv_buffer)))

unfoldable pub decode_msg : ClusterLink → Turn
decode_msg link =
    let (link', complete) = read_complete link in
    if complete then decode_with (read_header link'.recv_buffer) link' else broken link'

unfoldable pub turn : ClusterLink → Turn
turn link =
    let (link', complete) = read_complete link in
    if link.frame_invalid
    then broken link
    else if complete
    then decode_msg link'
    else (if link'.frame_invalid then broken link' else wait link')

-- The loop: the link and the messages; a malformed frame ends the link. The fuel bounds the number
-- of frames.
pub data Received : Type 0 where
  drained : ClusterLink → List ClusterMsg → Received
  severed : ClusterLink → List ClusterMsg → Received
  out_of_fuel : Received

unfoldable pub receive_loop : ℕ → ClusterLink → List ClusterMsg → Received
unfolding turn
receive_loop zero link got = out_of_fuel
receive_loop (suc f) link got = elim (turn link) [
  | wait link' ↦ drained link' got
  | received msg link' ↦ receive_loop f link' (got ++ msg ∷ [])
  | broken link' ↦ severed link' got
]
