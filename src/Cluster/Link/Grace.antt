-- ===== src/Cluster/Link/Grace.antt =====
-- The pause check of handle_read within the grace time (cluster/cluster_link.cpp).
use concurrent_cache.Prelude.{
  ℕ, ◌+◌, ◌-◌, ◌<◌, ◌≤◌, ◌≡◌, refl, true, false, arith, length, leb, ltb, ◌==◌, Bool-cases, inl,
  inr, ◌⊎◌,
}
use concurrent_cache.Text.{Bytes}
use concurrent_cache.Cluster.Link.Header.{max_packet_bytes}
use concurrent_cache.Cluster.Link.Session.{ClusterLink}
use concurrent_cache.Cluster.Link.Reading.{
  check_pending, keep_or_disconnect, partial_frame_expired, pending_frame, starts_accounting,
  limit_ms, reset_partial_frame_accounting,
}

-- The link is open, holds these bytes, and its partial frame, if any, began after `start`.
pub record Steady (start : ℕ) (s : Bytes) (link : ClusterLink) : Type 0 where
  pub is_connected : link.connected ≡ true
  pub is_valid : link.frame_invalid ≡ false
  pub holds : link.recv_buffer ≡ s
  pub is_recent : (link.partial_frame_since_ms ≡ 0) ⊎ (start ≤ link.partial_frame_since_ms)

in_grace :
    (start now declared buffered : ℕ) (s : Bytes) (link : ClusterLink)
    → start ≤ now
    → now < start + 10000
    → Steady start s link
    → starts_accounting declared buffered link ≡ false
    → leb (limit_ms declared) (now - link.partial_frame_since_ms) ≡ false
in_grace start now declared buffered s link from_start in_time steady b =
    ground (arith, steady.is_recent)

-- A partial frame that began less than the grace time ago is kept.
partial_frame_expired-Steady :
    (start now declared buffered : ℕ) (s : Bytes) (link : ClusterLink)
    → start ≤ now
    → now < start + 10000
    → Steady start s link
    → Steady start s (keep_or_disconnect (partial_frame_expired declared buffered now link))
unfolding partial_frame_expired reset_partial_frame_accounting
partial_frame_expired-Steady start now declared buffered s link from_start in_time steady =
    elim (Bool-cases (declared == 0)) [
      | inl z ↦ rw z (record {
        is_connected = steady.is_connected;
        is_valid = steady.is_valid;
        holds = steady.holds;
        is_recent = inl refl;
      })
      | inr z ↦ elim (Bool-cases (starts_accounting declared buffered link)) [
        | inl b ↦
            rw (z, b)
              (record {
                is_connected = steady.is_connected;
                is_valid = steady.is_valid;
                holds = steady.holds;
                is_recent = inr from_start;
              })
        | inr b ↦
            rw (z, b, in_grace start now declared buffered s link from_start in_time steady b)
              (record {
                is_connected = steady.is_connected;
                is_valid = steady.is_valid;
                holds = steady.holds;
                is_recent = steady.is_recent;
              })
      ]
    ]

pub check_pending-Steady :
    (start now : ℕ) (s : Bytes) (link : ClusterLink)
    → start ≤ now
    → now < start + 10000
    → length s ≤ max_packet_bytes
    → Steady start s link
    → Steady start s (check_pending now link)
unfolding check_pending
check_pending-Steady start now s link from_start in_time small steady =
    let few : ltb max_packet_bytes (length link.recv_buffer) ≡ false =
      rw steady.holds (ground arith) in
    rw few (
      partial_frame_expired-Steady start now (pending_frame link.recv_buffer)
        (length link.recv_buffer) s link from_start in_time steady)
