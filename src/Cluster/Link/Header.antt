-- ===== src/Cluster/Link/Header.antt =====
-- cluster/cluster_link.h: ClusterMsgHeader as the bytes that memcpy takes it from and puts it to, on a
-- little-endian platform with the usual alignment, where the struct has four bytes of padding behind
-- `length` and takes 2120 bytes.
use concurrent_cache.Prelude.{ℕ, ◌*◌, ◌<◌, ◌≡◌, List, [], ◌++◌, length, take, drop, replicate}
use concurrent_cache.Text.{Bytes}
use concurrent_cache.Text.Words.{little_endian, from_little_endian, range}

pub record ClusterMsgHeader : Type 0 where
  pub magic : ℕ
  pub version : ℕ
  pub type_code : ℕ
  pub msg_length : ℕ
  pub sender_epoch : ℕ
  pub sender_name : Bytes
  pub flags : ℕ
  pub port : ℕ
  pub state : ℕ
  pub slot_map : Bytes

-- kMsgMagic, kBusFramingVersion, kBusFramingLegacyVersion, kMaxPacketBytes, sizeof(ClusterMsgHeader)
abbrev pub msg_magic : ℕ
msg_magic = 67

abbrev pub bus_framing_version : ℕ
bus_framing_version = 2

abbrev pub bus_framing_legacy_version : ℕ
bus_framing_legacy_version = 1

abbrev pub max_packet_bytes : ℕ
max_packet_bytes = 256 * 1024 * 1024

abbrev pub header_size : ℕ
header_size = 2120

-- ClusterMsg
pub record ClusterMsg : Type 0 where
  pub header : ClusterMsgHeader
  pub args : List Bytes

-- The constructor of ClusterMsg.
unfoldable pub new_msg : ClusterMsg
new_msg = record {
  header = record {
    magic = msg_magic;
    version = bus_framing_version;
    type_code = 0;
    msg_length = 0;
    sender_epoch = 0;
    sender_name = replicate 40 0;
    flags = 0;
    port = 0;
    state = 0;
    slot_map = replicate 2048 0;
  };
  args = [];
}

-- The fields behind the sender's name.
abbrev pub tail_of : ClusterMsgHeader → Bytes → Bytes
tail_of h rest =
    little_endian 2 h.flags
    ++ (little_endian 2 h.port ++ (little_endian 4 h.state ++ (h.slot_map ++ rest)))

abbrev pub lengths_of : ClusterMsgHeader → Bytes → Bytes
lengths_of h rest =
    little_endian 4 h.msg_length ++ (little_endian 4 0 ++ (little_endian 8 h.sender_epoch ++ rest))

unfoldable pub put_header : ClusterMsgHeader → Bytes → Bytes
put_header h rest =
    little_endian 4 h.magic
    ++ (little_endian 2 h.version
        ++ (little_endian 2 h.type_code ++ lengths_of h (h.sender_name ++ tail_of h rest)))

-- An integer of `w` bytes at an offset.
abbrev pub word_at : ℕ → ℕ → Bytes → ℕ
word_at offset w s = from_little_endian (take w (drop offset s))

unfoldable pub read_magic : Bytes → ℕ
read_magic s = word_at 0 4 s

unfoldable pub read_msg_length : Bytes → ℕ
read_msg_length s = word_at 8 4 s

unfoldable pub read_header : Bytes → ClusterMsgHeader
unfolding read_magic read_msg_length
read_header s = record {
  magic = read_magic s;
  version = word_at 4 2 s;
  type_code = word_at 6 2 s;
  msg_length = read_msg_length s;
  sender_epoch = word_at 16 8 s;
  sender_name = take 40 (drop 24 s);
  flags = word_at 64 2 s;
  port = word_at 66 2 s;
  state = word_at 68 4 s;
  slot_map = take 2048 (drop 72 s);
}

-- The values that the struct can hold.
pub record FitsHeader (h : ClusterMsgHeader) : Type 0 where
  pub magic_fits : h.magic < range 4
  pub version_fits : h.version < range 2
  pub type_fits : h.type_code < range 2
  pub length_fits : h.msg_length < range 4
  pub epoch_fits : h.sender_epoch < range 8
  pub name_fits : length h.sender_name ≡ 40
  pub flags_fits : h.flags < range 2
  pub port_fits : h.port < range 2
  pub state_fits : h.state < range 4
  pub slots_fit : length h.slot_map ≡ 2048
