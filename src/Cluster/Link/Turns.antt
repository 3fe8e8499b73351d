-- ===== src/Cluster/Link/Turns.antt =====
-- One turn of the receiver's loop on a frame that send_msg wrote (cluster/cluster_link.cpp).
use concurrent_cache.Prelude.{
  ℕ, ◌+◌, ◌-◌, ◌^◌, ◌<◌, ◌≤◌, ◌≡◌, refl, sym, some, List, [], ◌∷◌, ◌++◌, arith, length, take, drop,
  take-append_eq, drop-length-append,
}
use concurrent_cache.Text.{Bytes}
use concurrent_cache.Cluster.Link.{
  bus_args_encode, bus_args_frame_bytes, bus_args_decode, decoded, add_args_bytes, decimal_digits,
}
use concurrent_cache.Cluster.Link.Framing.{
  AreShort, bus_args_decode-encode, bus_args_frame_bytes-encode,
}
use concurrent_cache.Cluster.Link.Header.{ClusterMsg, header_size, bus_framing_version}
use concurrent_cache.Cluster.Link.HeaderBytes.{drop-put_header, put_header-append}
use concurrent_cache.Cluster.Link.Session.{
  ClusterLink, outgoing, frame_bytes_of, turn, received, decode_msg, decode_with, decode_by_version,
}
use concurrent_cache.Cluster.Link.Frames.{
  sent_as, frame, IsSendable, sent_as-FitsHeader, length-frame, holding, read_header-frame,
  read_complete-frame,
}

add_args_bytes_ge : (args : List Bytes) (n : ℕ) → n ≤ add_args_bytes args n
unfolding add_args_bytes
add_args_bytes_ge [] n = omega arith
add_args_bytes_ge (arg ∷ args) n =
    omega (arith, add_args_bytes_ge args (n + (decimal_digits (length arg) + 1 + length arg)))

-- Each argument of a short frame is short.
AreShort-add_args_bytes :
    (args : List Bytes) (n : ℕ) → add_args_bytes args n < 10 ^ 10 → AreShort args
unfolding add_args_bytes
AreShort-add_args_bytes [] n h = tt
AreShort-add_args_bytes (arg ∷ args) n h = (
  omega (arith, add_args_bytes_ge args (n + (decimal_digits (length arg) + 1 + length arg))),
  AreShort-add_args_bytes args (n + (decimal_digits (length arg) + 1 + length arg)) h,
)

bus_args_decode-sent :
    (msg : ClusterMsg)
    → IsSendable msg
    → bus_args_decode (bus_args_encode msg.args []) ≡ decoded msg.args []
unfolding bus_args_frame_bytes
bus_args_decode-sent msg s = bus_args_decode-encode msg.args s.few (
    AreShort-add_args_bytes msg.args (decimal_digits (length msg.args) + 1)
      (omega (arith, s.small)))

-- The argument area of the frame.
area-frame :
    (my_name : Bytes) (msg : ClusterMsg) (rest : Bytes)
    → IsSendable msg
    → take (frame_bytes_of msg - header_size) (drop header_size (frame my_name msg ++ rest))
      ≡ bus_args_encode msg.args []
unfolding frame sent_as bus_args_frame_bytes
area-frame my_name msg rest s =
    rw
      (
        put_header-append (sent_as my_name msg).header (bus_args_encode msg.args []) rest,
        drop-put_header (sent_as my_name msg).header (bus_args_encode msg.args [] ++ rest)
            (sent_as-FitsHeader my_name msg s),
      )
      (take-append_eq (frame_bytes_of msg - header_size) (bus_args_encode msg.args []) rest
        (omega (arith, bus_args_frame_bytes-encode msg.args [])))

decode_by_version-sent :
    (msg : ClusterMsg)
    → IsSendable msg
    → decode_by_version bus_framing_version (bus_args_encode msg.args []) ≡ some msg.args
unfolding decode_by_version
decode_by_version-sent msg s = rw (bus_args_decode-sent msg s) refl

drop-frame :
    (my_name : Bytes) (msg : ClusterMsg) (rest : Bytes)
    → IsSendable msg
    → drop (frame_bytes_of msg) (frame my_name msg ++ rest) ≡ rest
drop-frame my_name msg rest s =
    rw (sym (length-frame my_name msg s)) (drop-length-append (frame my_name msg) rest)

decode_with-frame :
    (my_name : Bytes) (msg : ClusterMsg) (rest : Bytes) (link : ClusterLink)
    → IsSendable msg
    → decode_with (sent_as my_name msg).header (holding link (frame my_name msg ++ rest))
      ≡ received (sent_as my_name msg) (holding link rest)
unfolding decode_with outgoing sent_as
decode_with-frame my_name msg rest link s =
    rw (area-frame my_name msg rest s, decode_by_version-sent msg s, drop-frame my_name msg rest s)
      (ground arith)

decode_msg-frame :
    (my_name : Bytes) (msg : ClusterMsg) (rest : Bytes) (link : ClusterLink)
    → IsSendable msg
    → decode_msg (holding link (frame my_name msg ++ rest))
      ≡ received (sent_as my_name msg) (holding link rest)
unfolding decode_msg
decode_msg-frame my_name msg rest link s =
    rw (read_complete-frame my_name msg rest link s, read_header-frame my_name msg rest s)
      (decode_with-frame my_name msg rest link s)

-- With a whole frame in front, a turn of the loop delivers its message.
pub turn-frame :
    (my_name : Bytes) (msg : ClusterMsg) (rest : Bytes) (link : ClusterLink)
    → IsSendable msg
    → turn (holding link (frame my_name msg ++ rest))
      ≡ received (sent_as my_name msg) (holding link rest)
unfolding turn
turn-frame my_name msg rest link s =
    rw (read_complete-frame my_name msg rest link s, decode_msg-frame my_name msg rest link s) refl
