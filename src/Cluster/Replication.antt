-- ===== src/Cluster/Replication.antt =====
-- src/cluster/replication_mgr.h, replication_mgr.cpp: the buffer of replicated commands, and the replicas.
pub mod Offsets
pub mod Bus
pub mod Sync
pub mod Broadcast
pub mod Peers
pub mod Handover
pub mod Restored
use concurrent_cache.Prelude.{
  ℕ, zero, suc, ◌+◌, ◌*◌, ◌/◌, Bool, true, false, ◌||◌, Option, none, some, List, [], ◌∷◌, ◌++◌,
  length, ltb, leb, if◌then◌else◌, get_elem?, drop,
}
use concurrent_cache.Text.{Bytes}

-- Offsets stay below 2^63.
pub record ReplicationBufferEntry : Type 0 where
  pub command : Bytes
  pub offset : ℕ

-- The fields of ReplicationMgr that the buffer is made of.
pub record ReplicationBuffer : Type 0 where
  pub master_repl_offset : ℕ
  pub repl_buffer : List ReplicationBufferEntry
  pub repl_buffer_start_offset : ℕ

abbrev pub replication_buffer_size : ℕ
replication_buffer_size = 10 * 1024 * 1024

unfoldable pub total_size : List ReplicationBufferEntry → ℕ
total_size [] = 0
total_size (e ∷ es) = length e.command + total_size es

abbrev pub keep_from : Option ReplicationBufferEntry → ℕ → ReplicationBuffer → ReplicationBuffer
keep_from none keep_count b = b
keep_from (some e) keep_count b = record b {
  repl_buffer = drop keep_count b.repl_buffer;
  repl_buffer_start_offset = e.offset;
}

-- The newer half of the entries is kept.
unfoldable pub cleanup_replication_buffer : ReplicationBuffer → ReplicationBuffer
cleanup_replication_buffer b =
    let keep_count = length b.repl_buffer / 2 in
    keep_from (get_elem? b.repl_buffer keep_count) keep_count b

abbrev pub new_entry : ReplicationBuffer → Bytes → ReplicationBufferEntry
new_entry b command = record { command = command; offset = b.master_repl_offset }

abbrev pub entered : ReplicationBuffer → Bytes → ReplicationBuffer
entered b command = record b {
  repl_buffer = b.repl_buffer ++ new_entry b command ∷ [];
  master_repl_offset = b.master_repl_offset + length command;
}

unfoldable pub add_to_replication_buffer : ReplicationBuffer → Bytes → ReplicationBuffer
unfolding cleanup_replication_buffer total_size
add_to_replication_buffer b command =
    let b' = entered b command in
    if ltb replication_buffer_size (total_size b'.repl_buffer)
    then cleanup_replication_buffer b'
    else b'

abbrev from_on : ℕ → List ReplicationBufferEntry → List ReplicationBufferEntry
from_on from_offset [] = []
from_on from_offset (e ∷ es) =
    if leb from_offset e.offset then e ∷ from_on from_offset es else from_on from_offset es

unfoldable pub get_replication_commands : ReplicationBuffer → ℕ → List ReplicationBufferEntry
get_replication_commands b from_offset = from_on from_offset b.repl_buffer
