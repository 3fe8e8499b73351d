-- ===== src/Cluster/Link/Deadline.antt =====
-- The deadline of a partial frame (cluster/cluster_link.cpp).
use concurrent_cache.Prelude.{
  ℕ, ◌+◌, ◌-◌, ◌*◌, ◌/◌, ◌≤◌, sym, ◌<◌, ◌⊎◌, ◌≡◌, ◌≢◌, refl, Bool, true, false, List, [], ◌∷◌, map,
  arith, leb, ◌==◌, ap,
}
use concurrent_cache.Cluster.Link.Session.{ClusterLink}
use concurrent_cache.Cluster.Link.Reading.{partial_frame_expired, starts_accounting, limit_ms}

-- A pause check: the bytes in the buffer and the clock.
pub record Check : Type 0 where
  pub buffered : ℕ
  pub now : ℕ

-- The answers of partial_frame_expired for one frame.
unfoldable pub answers : ℕ → List Check → ClusterLink → List Bool
answers declared [] link = []
answers declared (c ∷ checks) link =
    let (link', expired) = partial_frame_expired declared c.buffered c.now link in
    expired ∷ answers declared checks link'

-- The buffer does not shrink.
abbrev pub Grows : ℕ → List Check → Type 0
Grows least [] = Unit {0}
Grows least (c ∷ checks) = (least ≤ c.buffered) × Grows c.buffered checks

-- The frame of this length is accounted for since `start`.
abbrev Pending : ℕ → ℕ → ℕ → ClusterLink → Type 0
Pending declared start buffered link =
    (link.partial_frame_since_ms ≡ start)
    × ((link.partial_frame_declared ≡ declared) × (link.partial_frame_bytes ≡ buffered))

Pending-same :
    (declared start buffered : ℕ) (c : Check) (link : ClusterLink)
    → declared ≢ 0
    → start ≢ 0
    → buffered ≤ c.buffered
    → Pending declared start buffered link
    → partial_frame_expired declared c.buffered c.now link
      ≡ (record link { partial_frame_bytes = c.buffered }, leb (limit_ms declared) (c.now - start))
unfolding partial_frame_expired
Pending-same declared start buffered c link some_frame started grows pending =
    let a_frame : (declared == 0) ≡ false = ground arith in
    let the_same : starts_accounting declared c.buffered link ≡ false = ground arith in
    rw (a_frame, the_same)
      (ap
        (λ since. (
          record link { partial_frame_bytes = c.buffered },
          leb (limit_ms declared) (c.now - since),
        ))
        pending.0)

answers-Pending :
    (declared start buffered : ℕ) (checks : List Check) (link : ClusterLink)
    → declared ≢ 0
    → start ≢ 0
    → Grows buffered checks
    → Pending declared start buffered link
    → answers declared checks link ≡ map (λ c. leb (limit_ms declared) (c.now - start)) checks
unfolding answers
answers-Pending declared start buffered [] link some_frame started grows pending = refl
answers-Pending declared start buffered (c ∷ checks) link some_frame started grows pending =
    rw
      (
        answers,
        Pending-same declared start buffered c link some_frame started grows.0 pending,
        answers-Pending declared start c.buffered checks
            (record link { partial_frame_bytes = c.buffered }) some_frame started grows.1
            (pending.0, (pending.1.0, refl)),
      )
      refl

abbrev began : ℕ → Check → ClusterLink → ClusterLink
began declared first link = record link {
  partial_frame_since_ms = first.now;
  partial_frame_bytes = first.buffered;
  partial_frame_declared = declared;
}

Pending-first :
    (declared : ℕ) (first : Check) (link : ClusterLink)
    → declared ≢ 0
    → starts_accounting declared first.buffered link ≡ true
    → partial_frame_expired declared first.buffered first.now link
      ≡ (began declared first link, false)
unfolding partial_frame_expired
Pending-first declared first link some_frame starts =
    let a_frame : (declared == 0) ≡ false = ground arith in rw (a_frame, starts) refl

-- The link accounts for no frame, for one of another length, or for one with more bytes.
abbrev pub IsNew : ℕ → Check → ClusterLink → Type 0
IsNew declared first link =
    (link.partial_frame_since_ms ≡ 0)
    ⊎ (declared ≢ link.partial_frame_declared)
    ⊎ (first.buffered < link.partial_frame_bytes)

starts_accounting-IsNew :
    (declared : ℕ) (first : Check) (link : ClusterLink)
    → IsNew declared first link
    → starts_accounting declared first.buffered link ≡ true
starts_accounting-IsNew declared first link new = ground (arith, new)

limit_ms_eq : (declared : ℕ) → limit_ms declared ≡ 10000 + 1000 * (declared / 1048576)
limit_ms_eq declared = omega arith

-- The drip-feed guard, for an unfinished frame whose declared length is not 0, on a link that does not
-- account for it yet, with a clock that does not stand at 0: when the pause checks see this frame and
-- its bytes only grow, the first check does not say that it expired, and a later one does exactly when
-- 10 s and 1 s for each whole MiB of its declared length have gone by since the first, whatever came in
-- between.
pub answers_lem :
    (declared : ℕ) (first : Check) (checks : List Check) (link : ClusterLink)
    → declared ≢ 0
    → first.now ≢ 0
    → IsNew declared first link
    → Grows first.buffered checks
    → answers declared (first ∷ checks) link
      ≡ false ∷ map (λ c. leb (10000 + 1000 * (declared / 1048576)) (c.now - first.now)) checks
unfolding answers
answers_lem declared first checks link some_frame started new grows =
    let starts = starts_accounting-IsNew declared first link new in
    rw
      (
        sym (limit_ms_eq declared),
        answers,
        Pending-first declared first link some_frame starts,
        answers-Pending declared first.now first.buffered checks (began declared first link)
            some_frame started grows (refl, (refl, refl)),
      )
      refl
