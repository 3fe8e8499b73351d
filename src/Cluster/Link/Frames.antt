-- ===== src/Cluster/Link/Frames.antt =====
-- The frame that send_msg writes, and what the receiver reads of its header
-- (cluster/cluster_link.cpp).
use concurrent_cache.Prelude.{
  suc, ◌^◌, ◌≤◌, ◌≡◌, true, false, [], ◌∷◌, ◌++◌, arith, length, take, drop, ◌∙◌, ap, length-append,
  ltb, ◌==◌, get_or, ◌&&◌, Bool-cases, inl, inr, length-take, length-drop,
}
use concurrent_cache.Text.{Bytes}
use concurrent_cache.Cluster.Link.{bus_args_encode, bus_args_frame_bytes}
use concurrent_cache.Cluster.Link.Framing.{bus_args_frame_bytes-encode}
use concurrent_cache.Cluster.Link.Header.{
  ClusterMsg, FitsHeader, put_header, read_header, read_magic, read_msg_length, msg_magic,
  max_packet_bytes,
}
use concurrent_cache.Cluster.Link.HeaderBytes.{
  read_header-put_header, length-put_header, put_header-append,
}
use concurrent_cache.Cluster.Link.Session.{
  ClusterLink, outgoing, fill_sender, print_name, c_string, frame_bytes_of, read_complete,
}

-- The message that the peer gets.
unfoldable pub sent_as : Bytes → ClusterMsg → ClusterMsg
unfolding outgoing
sent_as my_name msg = record msg { header = outgoing my_name (frame_bytes_of msg) msg.header }

unfoldable pub frame : Bytes → ClusterMsg → Bytes
unfolding put_header bus_args_encode
frame my_name msg = put_header (sent_as my_name msg).header (bus_args_encode msg.args [])

-- A message with the bus's magic, whose fields fit, with at most 2 ^ 20 arguments in a frame of at
-- most 256 MiB.
pub record IsSendable (msg : ClusterMsg) : Type 0 where
  pub fits : FitsHeader msg.header
  pub has_magic : msg.header.magic ≡ msg_magic
  pub few : length msg.args ≤ 2 ^ 20
  pub small : frame_bytes_of msg ≤ max_packet_bytes

length-print_name : (field name : Bytes) → length field ≡ 40 → length (print_name field name) ≡ 40
unfolding print_name
length-print_name field name e = ground (
  arith,
  length-append (take 39 (c_string name)) (0 ∷ drop (suc (length (take 39 (c_string name)))) field),
  length-take 39 (c_string name),
  length-drop (suc (length (take 39 (c_string name)))) field,
)

length-fill_sender :
    (my_name field : Bytes) → length field ≡ 40 → length (fill_sender my_name field) ≡ 40
unfolding fill_sender
length-fill_sender my_name field e =
    elim (Bool-cases (get_or field 0 0 == 0 && ltb 0 (length my_name))) [
      | inl b ↦ rw (fill_sender, b) (length-print_name field my_name e)
      | inr b ↦ rw (fill_sender, b) e
    ]

pub sent_as-FitsHeader :
    (my_name : Bytes) (msg : ClusterMsg) → IsSendable msg → FitsHeader (sent_as my_name msg).header
unfolding outgoing sent_as
sent_as-FitsHeader my_name msg s = record {
  magic_fits = s.fits.magic_fits;
  version_fits = omega arith;
  type_fits = s.fits.type_fits;
  length_fits = omega (arith, s.small);
  epoch_fits = s.fits.epoch_fits;
  name_fits = length-fill_sender my_name msg.header.sender_name s.fits.name_fits;
  flags_fits = s.fits.flags_fits;
  port_fits = s.fits.port_fits;
  state_fits = s.fits.state_fits;
  slots_fit = s.fits.slots_fit;
}

pub length-frame :
    (my_name : Bytes) (msg : ClusterMsg)
    → IsSendable msg
    → length (frame my_name msg) ≡ frame_bytes_of msg
unfolding frame bus_args_frame_bytes
length-frame my_name msg s = omega (
  arith,
  length-put_header (sent_as my_name msg).header (bus_args_encode msg.args [])
      (sent_as-FitsHeader my_name msg s),
  bus_args_frame_bytes-encode msg.args [],
)

-- The link is at rest with these bytes.
abbrev pub holding : ClusterLink → Bytes → ClusterLink
holding link s = record link { recv_buffer = s; frame_invalid = false }

pub read_header-frame :
    (my_name : Bytes) (msg : ClusterMsg) (rest : Bytes)
    → IsSendable msg
    → read_header (frame my_name msg ++ rest) ≡ (sent_as my_name msg).header
unfolding read_header frame sent_as
read_header-frame my_name msg rest s =
    rw (put_header-append (sent_as my_name msg).header (bus_args_encode msg.args []) rest) (
      read_header-put_header (sent_as my_name msg).header (bus_args_encode msg.args [] ++ rest)
        (sent_as-FitsHeader my_name msg s))

pub read_magic-frame :
    (my_name : Bytes) (msg : ClusterMsg) (rest : Bytes)
    → IsSendable msg
    → read_magic (frame my_name msg ++ rest) ≡ msg_magic
unfolding read_header outgoing sent_as
read_magic-frame my_name msg rest s =
    ap (λ h. h.magic) (read_header-frame my_name msg rest s) ∙ s.has_magic

pub read_msg_length-frame :
    (my_name : Bytes) (msg : ClusterMsg) (rest : Bytes)
    → IsSendable msg
    → read_msg_length (frame my_name msg ++ rest) ≡ frame_bytes_of msg
unfolding read_header outgoing bus_args_frame_bytes sent_as
read_msg_length-frame my_name msg rest s =
    ap (λ h. h.msg_length) (read_header-frame my_name msg rest s)

pub read_complete-frame :
    (my_name : Bytes) (msg : ClusterMsg) (rest : Bytes) (link : ClusterLink)
    → IsSendable msg
    → read_complete (holding link (frame my_name msg ++ rest))
      ≡ (holding link (frame my_name msg ++ rest), true)
unfolding read_complete
read_complete-frame my_name msg rest link s =
    rw
      (
        read_magic-frame my_name msg rest s,
        read_msg_length-frame my_name msg rest s,
        length-append (frame my_name msg) rest,
        length-frame my_name msg s,
      )
      (ground (arith, s.small))
