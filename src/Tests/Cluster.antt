-- ===== src/Tests/Cluster.antt =====
-- src/cluster/replication_mgr.cpp at concrete inputs.
use concurrent_cache.Prelude.{
  ℕ, pos, ◌+◌, ◌≡◌, refl, Option, none, some, List, [], ◌∷◌, ◌++◌, arith, length, when_some, true,
  inl,
}
use concurrent_cache.Text.{Bytes, codes, str_eq}
use concurrent_cache.Table.{find}
use concurrent_cache.Cluster.Replication.{
  ReplicationBuffer, ReplicationBufferEntry, add_to_replication_buffer,
}
use concurrent_cache.Protocol.Resp.Encoder.{encode_simple_string, encode_error}
use concurrent_cache.Cluster.Replication.Sync.{restore_args}
use concurrent_cache.Cluster.Replication.Restored.{Restored, restore_command-restore_args}
use concurrent_cache.Command.Restore.{restore_command}
use concurrent_cache.Tests.Stores.{machine, key, other, stale, stale-WellFormed}
use concurrent_cache.Tests.Objects.{ranking, symbols, ranking-IsClean, ranking_filled, ranking_fits}
use concurrent_cache.Cluster.Replication.Offsets.{WellKept, add_to_replication_buffer-WellKept}
use concurrent_cache.Cluster.Replication.Bus.{
  send_replication_args, execute_bus_command_line, execute_bus_command_line-encode_array,
}
use concurrent_cache.Cluster.Replication.Sync.{
  ReplicationMgr, no_info, sending_rdb, connected, hold_back_step, push_step, get_all_replicas,
  replicate_command, take_backlog, replay,
}
use concurrent_cache.Cluster.Replication.Broadcast.{received}
use concurrent_cache.Cluster.Replication.Peers.{IsReplica, peer}
use concurrent_cache.Cluster.Replication.Handover.{
  replicate_all, finish_rdb, buffered, finish_rdb_lem, push_step_twice, replay_late,
}

abbrev first : ReplicationBufferEntry
first = record { command = codes "SET a 1"; offset = 40 }

abbrev second : ReplicationBufferEntry
second = record { command = codes "DEL b"; offset = 47 }

abbrev two : ReplicationBuffer
two = record {
  master_repl_offset = 52;
  repl_buffer = first ∷ second ∷ [];
  repl_buffer_start_offset = 40;
}

two-WellKept : WellKept two
two-WellKept = (refl, (refl, refl))

add_to_replication_buffer-WellKept_example :
    let b' = add_to_replication_buffer two (codes "GET a") in
    WellKept b' × (b'.master_repl_offset ≡ 52 + length (codes "GET a"))
add_to_replication_buffer-WellKept_example =
    add_to_replication_buffer-WellKept two (codes "GET a") two-WellKept

-- A table in which every command counts its arguments.
abbrev counting : Bytes → Option (List Bytes → ℕ → ℕ × Bytes)
counting name = some (λ args n. (n + length args, codes "OK"))

execute_bus_command_line-encode_array_example :
    when_some
      (send_replication_args (codes "SET" ∷ codes "a b" ∷ []))
      none
      (λ line. some (execute_bus_command_line counting line 0))
    ≡ some (
        when_some
          (counting (codes "set"))
          (0, encode_error (codes "ERR unknown command '" ++ codes "set" ++ codes "'"))
          (λ command. command (codes "SET" ∷ codes "a b" ∷ []) 0))
execute_bus_command_line-encode_array_example =
    execute_bus_command_line-encode_array counting (codes "SET") (codes "set") (codes "a b" ∷ []) 0
      (
        inl (omega arith, omega arith, refl),
        (inl (omega arith, omega arith, refl), (inl (omega arith, omega arith, refl), tt)),
      )
      (omega arith) (omega arith, (omega arith, tt))

abbrev node : Bytes
node = codes "n1"

-- A replica that gets its snapshot, with one command held back.
abbrev syncing : ReplicationMgr
syncing = record {
  buffer = two;
  infos =
      (record no_info {
        name = node;
        sync_state = sending_rdb;
        pending_commands = codes "DEL b" ∷ [];
      })
      ∷ [];
  replicas = (node, 0) ∷ [];
  rdb_send_in_progress = true;
  outbox = [];
}

syncing-IsReplica : IsReplica syncing node 0
unfolding find str_eq
syncing-IsReplica = record {
  entry = refl;
  in_range = omega arith;
  own_name = refl;
  once = inl (refl, tt);
  others = (inl refl, tt);
}

syncing-peer : peer syncing node 0 ≡ (sending_rdb, codes "DEL b" ∷ [], [])
unfolding received
syncing-peer = refl

abbrev incr : Bytes
incr = codes "INCR c"

finish_rdb_lem_example :
    peer
      (replicate_all (incr ∷ []) (finish_rdb (replicate_all (codes "GET a" ∷ []) syncing) node))
      node
      0
    ≡ (connected, [], ([] ++ (codes "DEL b" ∷ [] ++ codes "GET a" ∷ [])) ++ incr ∷ [])
finish_rdb_lem_example =
    finish_rdb_lem node 0 syncing (codes "DEL b" ∷ []) [] (codes "GET a" ∷ []) (incr ∷ [])
      syncing-IsReplica syncing-peer

push_step_twice_example :
    let r₁ = hold_back_step (buffered syncing incr) incr in
    received node (push_step (get_all_replicas syncing) (finish_rdb r₁ node) incr).outbox
    ≡ ([] ++ (codes "DEL b" ∷ [] ++ incr ∷ [])) ++ incr ∷ []
push_step_twice_example =
    push_step_twice node 0 syncing incr (codes "DEL b" ∷ []) [] syncing-IsReplica syncing-peer

replay_late_example :
    let (r₁, backlog) = take_backlog syncing node in
    received node (replay (replicate_command r₁ incr) node backlog).outbox
    ≡ ([] ++ incr ∷ []) ++ codes "DEL b" ∷ []
replay_late_example =
    replay_late node 0 syncing incr (codes "DEL b" ∷ []) [] syncing-IsReplica syncing-peer

restore_command-restore_args_example :
    let (s', reply) =
      restore_command machine symbols stale (restore_args symbols key (pos 50) ranking) (pos 200) in
    (reply ≡ some (encode_simple_string (codes "OK")))
    × Restored machine symbols stale key other ranking (pos 50) (pos 200) (pos 220) s'
restore_command-restore_args_example =
    restore_command-restore_args machine symbols stale key other ranking (pos 50) (pos 200)
      (pos 220) stale-WellFormed ranking-IsClean (refl, (refl, tt)) ranking_filled (omega arith)
      ranking_fits (omega arith)
