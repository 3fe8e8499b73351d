-- ===== src/Tests/Links.antt =====
-- Tests and examples for Cluster.Link.
use concurrent_cache.Prelude.{
  inl, ◌+◌, ◌*◌, ◌/◌, ℕ, ◌≡◌, ◌≢◌, refl, true, false, List, [], ◌∷◌, ◌++◌, arith, map, take, drop,
  take-append-drop, append-nil, ap, ◌∙◌, leb, ◌-◌, length-replicate,
}
use concurrent_cache.Text.{Bytes, codes}
use concurrent_cache.Cluster.Link.{
  bus_args_frame_bytes, bus_args_encode, bus_args_decode, bus_args_decode_legacy, decoded,
  malformed,
}
use concurrent_cache.Cluster.Link.Framing.{bus_args_decode-encode}
use concurrent_cache.Cluster.Link.Header.{ClusterMsg, FitsHeader, new_msg}
use concurrent_cache.Cluster.Link.Session.{new_link, receive_loop, out_of_fuel}
use concurrent_cache.Cluster.Link.Frames.{IsSendable, sent_as}
use concurrent_cache.Cluster.Link.Delivery.{
  Arrival, handle_reads, handle_reads-send_each, send_each,
}
use concurrent_cache.Cluster.Link.Deadline.{Check, answers, answers_lem}
use concurrent_cache.Cluster.Link.Progress.{receive_loop_enough}

abbrev two_args : List Bytes
two_args = codes "SET" ∷ (192 ∷ 10 ∷ 0 ∷ []) ∷ [] ∷ []

encoded : bus_args_encode two_args [] ≡ codes "3\n3\nSET3\n" ++ 192 ∷ 10 ∷ 0 ∷ codes "0\n"
unfolding bus_args_encode
encoded = refl

trailing : bus_args_decode (codes "1\n1\nab") ≡ malformed (codes "trailing bytes after last arg")
unfolding bus_args_decode
trailing = refl

too_long :
    bus_args_decode (codes "1\n9\nab")
    ≡ malformed (codes "arg length exceeds remaining frame bytes")
unfolding bus_args_decode
too_long = refl

-- The legacy framing loses a last empty argument and splits a value at the byte 0xC0.
legacy : bus_args_decode_legacy (97 ∷ 192 ∷ 98 ∷ 192 ∷ []) ≡ (97 ∷ []) ∷ (98 ∷ []) ∷ []
unfolding bus_args_decode_legacy
legacy = refl

bus_args_decode-encode_example : bus_args_decode (bus_args_encode two_args []) ≡ decoded two_args []
bus_args_decode-encode_example =
    bus_args_decode-encode two_args (omega arith) (omega arith, (omega arith, (omega arith, tt)))

abbrev ping : ClusterMsg
unfolding new_msg
ping = record new_msg { args = two_args }

ping-FitsHeader : FitsHeader ping.header
unfolding new_msg
ping-FitsHeader = record {
  magic_fits = omega arith;
  version_fits = omega arith;
  type_fits = omega arith;
  length_fits = omega arith;
  epoch_fits = omega arith;
  name_fits = refl;
  flags_fits = omega arith;
  port_fits = omega arith;
  state_fits = omega arith;
  slots_fit = length-replicate {A = ℕ} 2048 0;
}

ping-IsSendable : IsSendable ping
unfolding new_msg bus_args_frame_bytes
ping-IsSendable = record {
  fits = ping-FitsHeader;
  has_magic = refl;
  few = omega arith;
  small = omega arith;
}

abbrev node : Bytes
node = codes "node-1"

abbrev sent : Bytes
sent = (send_each node (ping ∷ ping ∷ []) new_link).send_buffer

abbrev arrivals : List Arrival
arrivals =
    record { received_at = 5; now = 5; chunk = take 700 sent }
    ∷ record { received_at = 9000; now = 9001; chunk = drop 700 sent }
    ∷ []

handle_reads-send_each_example :
    ((handle_reads arrivals new_link).1 ≡ map (sent_as node) (ping ∷ ping ∷ []))
    × (((handle_reads arrivals new_link).0.recv_buffer ≡ [])
        × ((handle_reads arrivals new_link).0.connected ≡ true))
handle_reads-send_each_example =
    handle_reads-send_each node 5 arrivals (ping ∷ ping ∷ [])
      (ping-IsSendable, (ping-IsSendable, tt))
      ((omega arith, omega arith), ((omega arith, omega arith), tt))
      (ap (λ s. take 700 sent ++ s) (append-nil (drop 700 sent)) ∙ take-append-drop 700 sent)

abbrev drips : List Check
drips = record { buffered = 2121; now = 9000 } ∷ record { buffered = 2122; now = 12000 } ∷ []

answers_lem_example :
    answers 3000000 (record { buffered = 2120; now = 1 } ∷ drips) new_link
    ≡ false ∷ map (λ c. leb (10000 + 1000 * (3000000 / 1048576)) (c.now - 1)) drips
answers_lem_example =
    answers_lem 3000000 (record { buffered = 2120; now = 1 }) drips new_link (λ e. omega arith)
      (λ e. omega arith) (inl refl) (omega arith, (omega arith, tt))

receive_loop_enough_example :
    receive_loop 4 (record new_link { recv_buffer = 67 ∷ 0 ∷ 0 ∷ [] }) [] ≢ out_of_fuel
receive_loop_enough_example =
    receive_loop_enough 4 (record new_link { recv_buffer = 67 ∷ 0 ∷ 0 ∷ [] }) [] (omega arith)
