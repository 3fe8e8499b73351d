-- ===== src/Cluster/Replication/Sync.antt =====
-- src/cluster/replication_mgr.cpp: the replicas and what is sent to them. `infos` holds the ReplicaInfo
-- objects that are shared by pointer, by their address; `replicas` is the map. `outbox` is what has
-- been handed to the connection, which is taken to be there. The calls are split where they give up
-- the lock, so that others can come in between.
use concurrent_cache.Prelude.{
  ℕ, Bool, true, false, ◌&&◌, Option, none, some, List, [], ◌∷◌, ◌++◌, length, if◌then◌else◌,
  get_or, set, ℤ, pos, negsuc, ltb_ℤ, leb_ℤ, ◌-ℤ◌,
}
use concurrent_cache.Text.{Bytes, codes}
use concurrent_cache.Text.Decimal.{to_string_ℤ}
use concurrent_cache.Table.{Table, find, insert_or_assign, erase, contains}
use concurrent_cache.Datatype.Object.{CacheObject}
use concurrent_cache.Datatype.Payload.{ScoreText, serialize}
use concurrent_cache.Cache.Storage.{Storage, KvWithTtl, get_all_objects_with_ttl}
use concurrent_cache.Protocol.Resp.Encoder.{encode_array}
use concurrent_cache.Cluster.Replication.{ReplicationBuffer, add_to_replication_buffer}

pub data SyncState : Type 0 where
  no_sync waiting sending_rdb sending_kv connected : SyncState

pub record ReplicaInfo : Type 0 where
  pub name : Bytes
  pub ip : Bytes
  pub port : ℤ
  pub repl_offset : ℕ
  pub last_ack_time : ℕ
  pub sync_state : SyncState
  pub pending_commands : List Bytes

abbrev pub no_info : ReplicaInfo
no_info = record {
  name = [];
  ip = [];
  port = pos 0;
  repl_offset = 0;
  last_ack_time = 0;
  sync_state = no_sync;
  pending_commands = [];
}

pub record ReplicationMgr : Type 0 where
  pub buffer : ReplicationBuffer
  pub infos : List ReplicaInfo
  pub replicas : Table ℕ
  pub rdb_send_in_progress : Bool
  pub outbox : List (Bytes × Bytes)

abbrev pub info_at : List ReplicaInfo → ℕ → ReplicaInfo
info_at infos a = get_or infos a no_info

unfoldable pub add_replica : ReplicationMgr → Bytes → Bytes → ℤ → ReplicationMgr
add_replica r name ip port = record r {
  infos =
      r.infos ++ (record no_info { name = name; ip = ip; port = port; sync_state = waiting }) ∷ [];
  replicas = insert_or_assign name (length r.infos) r.replicas;
}

unfoldable pub remove_replica : ReplicationMgr → Bytes → ReplicationMgr
remove_replica r name =
    if contains name r.replicas then record r { replicas = erase name r.replicas } else r

abbrev pub addresses : Table ℕ → List ℕ
addresses [] = []
addresses ((name, a) ∷ t) = a ∷ addresses t

unfoldable pub get_all_replicas : ReplicationMgr → List ℕ
get_all_replicas r = addresses r.replicas

abbrev pub is_sending_rdb : SyncState → Bool
is_sending_rdb sending_rdb = true
is_sending_rdb no_sync = false
is_sending_rdb waiting = false
is_sending_rdb sending_kv = false
is_sending_rdb connected = false

abbrev pub is_streaming : SyncState → Bool
is_streaming sending_kv = true
is_streaming connected = true
is_streaming no_sync = false
is_streaming waiting = false
is_streaming sending_rdb = false

abbrev pub hold_back : Bytes → ReplicaInfo → ReplicaInfo
hold_back command i =
    if is_sending_rdb i.sync_state
    then record i { pending_commands = i.pending_commands ++ command ∷ [] }
    else i

-- replicate_command under the lock: the command is held back for who gets a snapshot.
unfoldable pub hold_back_all : Bytes → List ℕ → List ReplicaInfo → List ReplicaInfo
hold_back_all command [] infos = infos
hold_back_all command (a ∷ as') infos =
    hold_back_all command as' (set infos a (hold_back command (info_at infos a)))

unfoldable pub hold_back_step : ReplicationMgr → Bytes → ReplicationMgr
unfolding hold_back_all
hold_back_step r command = record r { infos = hold_back_all command (addresses r.replicas) r.infos }

-- replicate_command after the lock: the command goes to those of the replicas found before that
-- are up to date now.
unfoldable pub push_all : Bytes → List ReplicaInfo → List ℕ → List (Bytes × Bytes)
push_all command infos [] = []
push_all command infos (a ∷ as') =
    let rest = push_all command infos as' in
    let i = info_at infos a in if is_streaming i.sync_state then (i.name, command) ∷ rest else rest

unfoldable pub push_step : List ℕ → ReplicationMgr → Bytes → ReplicationMgr
unfolding push_all
push_step found r command = record r { outbox = r.outbox ++ push_all command r.infos found }

-- replicate_command, when no other call comes in between.
unfoldable pub replicate_command : ReplicationMgr → Bytes → ReplicationMgr
unfolding hold_back_step push_step get_all_replicas
replicate_command r command =
    let r' = record r { buffer = add_to_replication_buffer r.buffer command } in
    push_step (get_all_replicas r') (hold_back_step r' command) command

abbrev pub to_replica : Bytes → List Bytes → List (Bytes × Bytes)
to_replica name [] = []
to_replica name (m ∷ ms) = (name, m) ∷ to_replica name ms

unfoldable pub send_all : ReplicationMgr → Bytes → List Bytes → ReplicationMgr
send_all r name messages = record r { outbox = r.outbox ++ to_replica name messages }

-- send_rdb_to_replica up to the snapshot; a replica that is not there, or a snapshot that is being
-- sent already, ends the call.
unfoldable pub begin_rdb : ReplicationMgr → Bytes → Option ReplicationMgr
begin_rdb r name = if r.rdb_send_in_progress then none else elim (find name r.replicas) [
  | none ↦ none
  | some a ↦ some (record r {
    infos = set r.infos a (record (info_at r.infos a) { sync_state = sending_rdb });
    rdb_send_in_progress = true;
  })
]

abbrev pub restore_args : ScoreText → Bytes → ℤ → CacheObject → List Bytes
restore_args st key ttl_ms value =
    codes "RESTORE" ∷ key ∷ to_string_ℤ ttl_ms ∷ serialize st value ∷ codes "REPLACE" ∷ []

-- RESTORE for every key that has not expired at `now`.
unfoldable pub restore_lines : ScoreText → ℤ → List KvWithTtl → List Bytes
restore_lines st now [] = []
restore_lines st now (kv ∷ kvs) =
    let rest = restore_lines st now kvs in
    let ttl_ms = if ltb_ℤ (pos 0) kv.expire_time_ms then kv.expire_time_ms -ℤ now else negsuc 0 in
    if ltb_ℤ (pos 0) kv.expire_time_ms && leb_ℤ ttl_ms (pos 0)
    then rest
    else encode_array (restore_args st kv.key ttl_ms kv.value) ∷ rest

unfoldable pub send_snapshot : ScoreText → Storage → ℤ → ReplicationMgr → Bytes → ReplicationMgr
unfolding restore_lines send_all
send_snapshot st s now r name =
    send_all r name (restore_lines st now (get_all_objects_with_ttl s now))

-- send_rdb_to_replica after the snapshot, under the lock: the commands held back, by the map as it
-- is then.
unfoldable pub take_backlog : ReplicationMgr → Bytes → ReplicationMgr × List Bytes
take_backlog r name = elim (find name r.replicas) [
  | none ↦ (r, [])
  | some a ↦
      let i = info_at r.infos a in
      (
        record r {
          infos = set r.infos a (record i { pending_commands = []; sync_state = connected });
        },
        i.pending_commands,
      )
]

unfoldable pub replay : ReplicationMgr → Bytes → List Bytes → ReplicationMgr
unfolding send_all
replay r name backlog = record (send_all r name backlog) { rdb_send_in_progress = false }
