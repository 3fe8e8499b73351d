-- ===== src/Cluster/Replication/Handover.antt =====
-- What a replica gets while its snapshot is sent and after it.
use concurrent_cache.Prelude.{
  ℕ, ◌≡◌, refl, sym, ap, ◌∙◌, List, [], ◌∷◌, ◌++◌, append_assoc, append-nil,
}
use concurrent_cache.Text.{Bytes}
use concurrent_cache.Cluster.Replication.{add_to_replication_buffer}
use concurrent_cache.Cluster.Replication.Sync.{
  SyncState, sending_rdb, connected, ReplicationMgr, addresses, get_all_replicas, hold_back_step,
  push_step, replicate_command, take_backlog, replay,
}
use concurrent_cache.Cluster.Replication.Broadcast.{received}
use concurrent_cache.Cluster.Replication.Peers.{
  IsReplica, peer, held_back, handed_over, Becomes, hold_back_step-Becomes, push_step-Becomes,
  take_backlog-Becomes, replay-Becomes,
}

-- Commands one after the other, with no other call in between.
abbrev pub replicate_all : List Bytes → ReplicationMgr → ReplicationMgr
replicate_all [] r = r
replicate_all (command ∷ commands) r = replicate_all commands (replicate_command r command)

-- send_rdb_to_replica after the snapshot.
abbrev pub finish_rdb : ReplicationMgr → Bytes → ReplicationMgr
finish_rdb r name = let (r', backlog) = take_backlog r name in replay r' name backlog

-- replicate_command up to the lock.
abbrev pub buffered : ReplicationMgr → Bytes → ReplicationMgr
buffered r command = record r { buffer = add_to_replication_buffer r.buffer command }

module _ (name : Bytes) (a : ℕ) where
  buffered-IsReplica :
      (r : ReplicationMgr) (command : Bytes)
      → IsReplica r name a
      → IsReplica (buffered r command) name a
  buffered-IsReplica r command w = record {
    entry = w.entry;
    in_range = w.in_range;
    own_name = w.own_name;
    once = w.once;
    others = w.others;
  }

  replicate_command-Becomes :
      (r : ReplicationMgr) (command : Bytes)
      → IsReplica r name a
      → Becomes name a
          (replicate_command r command)
          (handed_over command (held_back command (peer r name a)))
  unfolding replicate_command get_all_replicas hold_back_step
  replicate_command-Becomes r command w =
      let (w₁, held) =
        hold_back_step-Becomes name a (buffered r command) command
          (buffered-IsReplica r command w) in
      let (w₂, got) =
        push_step-Becomes name a (hold_back_step (buffered r command) command) command w₁ in
      (w₂, got ∙ ap (handed_over command) held)

  held_one :
      (r : ReplicationMgr) (command : Bytes) (held got : List Bytes)
      → Becomes name a r (sending_rdb, held, got)
      → Becomes name a (replicate_command r command) (sending_rdb, held ++ command ∷ [], got)
  held_one r command held got (w, p) =
      let (w', e) = replicate_command-Becomes r command w in
      (w', e ∙ ap (λ q. handed_over command (held_back command q)) p ∙ rw (append-nil got) refl)

  sent_one :
      (r : ReplicationMgr) (command : Bytes) (held got : List Bytes)
      → Becomes name a r (connected, held, got)
      → Becomes name a (replicate_command r command) (connected, held, got ++ command ∷ [])
  sent_one r command held got (w, p) =
      let (w', e) = replicate_command-Becomes r command w in
      (w', e ∙ ap (λ q. handed_over command (held_back command q)) p)

  -- During the snapshot the commands are held back in order.
  held_in_order :
      (commands : List Bytes) (r : ReplicationMgr) (held got : List Bytes)
      → Becomes name a r (sending_rdb, held, got)
      → Becomes name a (replicate_all commands r) (sending_rdb, held ++ commands, got)
  held_in_order [] r held got (w, p) = (w, rw (append-nil held) p)
  held_in_order (c ∷ commands) r held got h = rw (sym (append_assoc held (c ∷ []) commands)) (
      held_in_order commands (replicate_command r c) (held ++ c ∷ []) got (held_one r c held got h))

  -- After it they are handed over in order.
  sent_in_order :
      (commands : List Bytes) (r : ReplicationMgr) (held got : List Bytes)
      → Becomes name a r (connected, held, got)
      → Becomes name a (replicate_all commands r) (connected, held, got ++ commands)
  sent_in_order [] r held got (w, p) = (w, rw (append-nil got) p)
  sent_in_order (c ∷ commands) r held got h = rw (sym (append_assoc got (c ∷ []) commands)) (
      sent_in_order commands (replicate_command r c) held (got ++ c ∷ []) (sent_one r c held got h))

  finish_rdb-Becomes :
      (r : ReplicationMgr) (state : SyncState) (held got : List Bytes)
      → Becomes name a r (state, held, got)
      → Becomes name a (finish_rdb r name) (connected, [], got ++ held)
  finish_rdb-Becomes r state held got (w, p) =
      let ((w₁, taken), same) = take_backlog-Becomes name a r w in
      let (r', backlog) = take_backlog r name in
      let (w₂, replayed) = replay-Becomes name a r' backlog w₁ in
      (
        w₂,
        replayed
            ∙ ap (λ q. (q.0, q.1, q.2 ++ backlog)) taken
            ∙ ap (λ b. (connected, [], (peer r name a).2 ++ b)) same
            ∙ ap (λ q. (connected, [], q.2 ++ q.1)) p,
      )

  finish_rdb_replicas :
      (r : ReplicationMgr) → IsReplica r name a → (finish_rdb r name).replicas ≡ r.replicas
  unfolding replay take_backlog
  finish_rdb_replicas r w = rw (w.entry, take_backlog) refl

  -- While a replica gets its snapshot, `during` are replicated one after the other, then the backlog is
  -- taken and replayed, and then `after` are replicated. The replica has been handed, behind what it
  -- had, the commands held back before, `during` and `after`, in this order, each once.
  pub finish_rdb_lem :
      (r : ReplicationMgr) (held got during after : List Bytes)
      → IsReplica r name a
      → peer r name a ≡ (sending_rdb, held, got)
      → peer (replicate_all after (finish_rdb (replicate_all during r) name)) name a
        ≡ (connected, [], (got ++ (held ++ during)) ++ after)
  finish_rdb_lem r held got during after w p =
      (sent_in_order after _ [] _
        (finish_rdb-Becomes _ sending_rdb _ _ (held_in_order during r held got (w, p)))).1

  -- A command is held back for a replica that gets its snapshot; before it is pushed, the snapshot ends,
  -- and the backlog is taken and replayed. Then the replica is handed the command twice.
  pub push_step_twice :
      (r : ReplicationMgr) (command : Bytes) (held got : List Bytes)
      → IsReplica r name a
      → peer r name a ≡ (sending_rdb, held, got)
      → let r₁ = hold_back_step (buffered r command) command in
        received name (push_step (get_all_replicas r) (finish_rdb r₁ name) command).outbox
        ≡ (got ++ (held ++ command ∷ [])) ++ command ∷ []
  unfolding get_all_replicas hold_back_step
  push_step_twice r command held got w p =
      let (w₁, kept) =
        hold_back_step-Becomes name a (buffered r command) command
          (buffered-IsReplica r command w) in
      let r₁ = hold_back_step (buffered r command) command in
      let (w₂, done) =
        finish_rdb-Becomes r₁ sending_rdb _ _ (w₁, kept ∙ ap (held_back command) p) in
      let (w₃, pushed) = push_step-Becomes name a (finish_rdb r₁ name) command w₂ in
      let same = ap addresses (sym (finish_rdb_replicas r₁ w₁)) in
      ap (λ found. received name (push_step found (finish_rdb r₁ name) command).outbox) same
      ∙ ap (λ q. q.2) (pushed ∙ ap (handed_over command) done)

  -- A command that is replicated after the backlog was taken and before it is replayed is handed over
  -- before all the commands of the backlog, which are older.
  pub replay_late :
      (r : ReplicationMgr) (command : Bytes) (held got : List Bytes)
      → IsReplica r name a
      → peer r name a ≡ (sending_rdb, held, got)
      → let (r₁, backlog) = take_backlog r name in
        received name (replay (replicate_command r₁ command) name backlog).outbox
        ≡ (got ++ command ∷ []) ++ held
  replay_late r command held got w p =
      let ((w₁, taken), same) = take_backlog-Becomes name a r w in
      let (r₁, backlog) = take_backlog r name in
      let (w₂, sent) = sent_one r₁ command [] got (w₁, taken ∙ ap (λ q. (connected, [], q.2)) p) in
      let (w₃, replayed) = replay-Becomes name a (replicate_command r₁ command) backlog w₂ in
      ap (λ q. q.2) replayed
      ∙ ap (λ q. q.2 ++ backlog) sent
      ∙ ap (λ b. (got ++ command ∷ []) ++ b) (same ∙ ap (λ q. q.1) p)
