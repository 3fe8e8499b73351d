-- ===== src/Cluster/Replication/Peers.antt =====
-- The calls of src/cluster/replication_mgr.cpp, seen from one replica.
use concurrent_cache.Prelude.{
  ℕ, ◌<◌, ◌≡◌, refl, ◌∙◌, some, List, [], ◌∷◌, ◌++◌, length, if◌then◌else◌, length-set, inl, inr,
  Bool-cases,
}
use concurrent_cache.Text.{Bytes}
use concurrent_cache.Table.{find}
use concurrent_cache.Cluster.Replication.Sync.{
  SyncState, connected, ReplicaInfo, ReplicationMgr, info_at, addresses, is_sending_rdb, hold_back,
  hold_back_step, push_all, push_step, to_replica, send_all, take_backlog, replay,
}
use concurrent_cache.Cluster.Replication.Broadcast.{
  received, received-append, received-to_replica, Once, Others, name-set, info_at-set_self,
  Others-names, hold_back_all_name, length-hold_back_all, hold_back_all-Once, pushed, push_all-Once,
}

-- One replica of the map, whose object is at `a`.
pub record IsReplica (r : ReplicationMgr) (name : Bytes) (a : ℕ) : Type 0 where
  pub entry : find name r.replicas ≡ some a
  pub in_range : a < length r.infos
  pub own_name : (info_at r.infos a).name ≡ name
  pub once : Once a (addresses r.replicas)
  pub others : Others name a r.infos (addresses r.replicas)

-- A replica as the master sees it: its state, the commands held back, and the messages handed over.
abbrev pub Peer : Type 0
Peer = SyncState × List Bytes × List Bytes

abbrev pub peer : ReplicationMgr → Bytes → ℕ → Peer
peer r name a =
    ((info_at r.infos a).sync_state, (info_at r.infos a).pending_commands, received name r.outbox)

-- What a command does to it: it is held back during a snapshot, and handed over after it.
abbrev pub held_back : Bytes → Peer → Peer
held_back command (state, held, got) =
    (state, (if is_sending_rdb state then held ++ command ∷ [] else held), got)

abbrev pub handed_over : Bytes → Peer → Peer
handed_over command (state, held, got) = (state, held, got ++ pushed state command)

-- The calls, on the replica alone.
module _ (name : Bytes) (a : ℕ) where
  abbrev pub Becomes : ReplicationMgr → Peer → Type 0
  Becomes r p = IsReplica r name a × (peer r name a ≡ p)

  peer-hold_back :
      (command : Bytes) (i : ReplicaInfo) (got : List Bytes)
      → Path Peer
          ((hold_back command i).sync_state, (hold_back command i).pending_commands, got)
          (held_back command (i.sync_state, i.pending_commands, got))
  peer-hold_back command i got = elim (Bool-cases (is_sending_rdb i.sync_state)) [
    | inl on ↦ rw on refl
    | inr off ↦ rw off refl
  ]

  pub hold_back_step-Becomes :
      (r : ReplicationMgr) (command : Bytes)
      → IsReplica r name a
      → Becomes (hold_back_step r command) (held_back command (peer r name a))
  unfolding hold_back_step
  hold_back_step-Becomes r command w =
      let bs = addresses r.replicas in
      let same = hold_back_all-Once command a bs r.infos w.in_range w.once in
      (
        record {
          entry = w.entry;
          in_range = rw (length-hold_back_all command bs r.infos) w.in_range;
          own_name = hold_back_all_name command bs r.infos a ∙ w.own_name;
          once = w.once;
          others =
              Others-names name a r.infos _ bs (hold_back_all_name command bs r.infos) w.others;
        },
        rw same (peer-hold_back command (info_at r.infos a) (received name r.outbox)),
      )

  pub push_step-Becomes :
      (r : ReplicationMgr) (command : Bytes)
      → IsReplica r name a
      → Becomes (push_step (addresses r.replicas) r command) (handed_over command (peer r name a))
  unfolding push_step
  push_step-Becomes r command w = (
    record {
      entry = w.entry;
      in_range = w.in_range;
      own_name = w.own_name;
      once = w.once;
      others = w.others;
    },
    rw
        (
          received-append name r.outbox (push_all command r.infos (addresses r.replicas)),
          push_all-Once name command a r.infos (addresses r.replicas) w.own_name w.once w.others,
        )
        refl,
  )

  pub take_backlog-Becomes :
      (r : ReplicationMgr)
      → IsReplica r name a
      → let (r', backlog) = take_backlog r name in
        Becomes r' (connected, [], (peer r name a).2) × (backlog ≡ (peer r name a).1)
  unfolding take_backlog
  take_backlog-Becomes r w =
      let i = record (info_at r.infos a) { pending_commands = []; sync_state = connected } in
      rw (w.entry, take_backlog)
        (
          (
            record {
              entry = w.entry;
              in_range = rw (length-set r.infos a i) w.in_range;
              own_name = name-set r.infos a a i refl ∙ w.own_name;
              once = w.once;
              others =
                  Others-names name a r.infos _ (addresses r.replicas)
                    (λ c. name-set r.infos a c i refl) w.others;
            },
            rw (info_at-set_self r.infos a i w.in_range) refl,
          ),
          refl,
        )

  pub replay-Becomes :
      (r : ReplicationMgr) (backlog : List Bytes)
      → IsReplica r name a
      → let p = peer r name a in Becomes (replay r name backlog) (p.0, p.1, p.2 ++ backlog)
  unfolding replay send_all
  replay-Becomes r backlog w = (
    record {
      entry = w.entry;
      in_range = w.in_range;
      own_name = w.own_name;
      once = w.once;
      others = w.others;
    },
    rw (received-append name r.outbox (to_replica name backlog), received-to_replica name backlog)
        refl,
  )
