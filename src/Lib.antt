-- ===== src/Lib.antt =====
-- ConcurrentCache: a sharded in-memory cache with Redis commands.
--
-- The parts and their files (paths from the repository's root):
--   Text, Text/Decimal,     std::string, std::to_string, std::from_chars and std::stoll, as lists of
--   Text/Stoll              bytes.
--   Table                   std::unordered_map, as a list of pairs; new keys stand last.
--   Base/RangeClip          src/base/range_clip.h: clip_range.
--   Base/IntParse           src/base/int_parse.h: parse_ll_strict.
--   Base/Config             src/base/config.h, config.cpp: Config; Base/Config/Read: what a file gives.
--   Datatype/Double         a double by its bit pattern, with the IEEE order that src/datatype uses.
--   Datatype/Object         src/datatype/object.h, object.cpp: CacheObject with its five types. The
--                           operations are in Object/{Members, Lists, Hashes, Sets, SortedSets}, and
--                           their laws in Object/{Ranges, PushPop, MemberOrder, Ordered, Scores, Clean}.
--   Datatype/Payload        src/datatype/object.cpp: serialize and deserialize; the round trip is in
--                           Payload/{Records, Loops, Scored, RoundTrip}.
--   Cache/ExpireDict        src/cache/expire_dict.h, expire_dict.cpp: the expiry times of the keys; laws in
--                           ExpireDict/{Ttl, Sampling, Stats}.
--   Cache/Storage           src/cache/storage.h, storage.cpp: GlobalStorage, with Storage/Eviction and
--                           Storage/Writes. Storage/Lookup has the invariant, Storage/View what a client sees
--                           of a key, Storage/Evicts the relation between a store and what eviction may
--                           make of it; the laws of the calls are in Storage/{Evicted, Growth, Reads, Sets, Conditional,
--                           Mutates, Counters, Races}.
--   Cache/ExpirationChecker src/cache/expiration_checker.cpp: the cycle of run(); laws in
--                           ExpirationChecker/Cycle.
--   Cluster/Replication     src/cluster/replication_mgr.h, replication_mgr.cpp: the replication buffer, with
--                           its laws in Replication/Offsets; Replication/Bus: commands over the bus;
--                           Replication/Sync: the replicas and the snapshot, seen from one replica in
--                           Replication/{Broadcast, Peers, Handover}, and a key of the snapshot on the
--                           replica in Replication/Restored.
--   Cluster/Link            src/cluster/cluster_link.h, cluster_link.cpp: the arguments of a bus frame, with
--                           Link/Header for its header as bytes, Link/Session for a link's state and
--                           send_msg, read_complete and decode_msg, Link/Reading for handle_read,
--                           handle_write and the deadline of a partial frame, and Link/Gossip for
--                           send_gossip. Laws in Link/{Framing, HeaderBytes, Frames, Turns, Stream, Cuts,
--                           Grace, Delivery, Deadline, Progress}.
--   Persistence/Rdb         src/persistence/rdb.h, rdb.cpp: the fields and records of a file, with
--                           Rdb/Snapshot for save and load. A file is read back in Rdb/{Fields, Values,
--                           Objects, Records, Restored}; what clients see after it was loaded is in
--                           Rdb/{Views, Loaded}, and across a restart in Rdb/{Saved, Restart}.
--   Text/Words              integers of a fixed width as bytes, in both byte orders.
--   Network/Buffer          src/network/buffer.h, buffer.cpp: the byte buffer; Buffer/Queue: as a queue,
--                           with Buffer/Copies on the moves of bytes.
--   MemoryPool/SizeClass    src/memorypool/size_class.h, size_class.cpp; laws in SizeClass/Rounding.
--   Protocol/Resp           src/protocol/resp.h, resp.cpp: the values; Resp/Scan finds whether a command is
--                           there as a whole (has_complete_command, and the first line for
--                           has_protocol_error), Resp/Parser is RespParser and Resp/Encoder RespEncoder. Laws
--                           in Parser/Loop and Resp/{Lines, Arrays, Commands, Replies, Stuck, Nested}.
--   Command                 src/command/string_cmd.h, expire_cmd.h, restore_cmd.cpp: one function per command
--                           class, in Command/{Strings, SetCommand, Expiry, Lists, Hashes, Sets, SortedSets,
--                           Restore}. Command/SetWords has the options of SET as a client writes them;
--                           what a client sees of the commands is in Command/{Visible, Timed}.
--   Tests                   runs at concrete inputs.
--
-- How they interact: the store keeps one CacheObject per key in a shard and the expiry of the key
-- in the dictionary, and every call changes both; the view of a key is the value under its expiry.
-- INCRBY reads and prints its counter with parse_ll_strict and to_string, and the ranges of lists and
-- sorted sets go through clip_range. A command takes the arguments that the parser read, makes its
-- calls of the store, and gives the reply as the encoder writes it. A link of the cluster bus carries
-- messages with replicated commands and gossip to another node. A snapshot takes the visible records
-- of the store, and loading one writes them back with SET and SETEX.
--
-- Conventions:
--   - The code is that of a release build: assertions are off. Logging is left out.
--   - A call of the store is one step on the state, which stands for the lock of its shard. `get` is
--     also given in the two steps between which it holds no lock.
--   - The clock is an argument, read once in a call of the store and once in a command.
--   - The parser works on the readable bytes of its buffer, and `skip` drops from them. How deep arrays
--     may nest is an argument that counts down, as DepthGuard gives its level back on every way out.
--   - `Setting` holds what comes from elsewhere: std::hash, the random generator, and the products of
--     max_entries_ with 0.9 and 0.6, which are computed in doubles. `ScoreText` holds the printing and
--     the reading of a score, with the law that what was printed is read back; `DoubleText` holds
--     std::stod and format_double for the commands. SPOP's draw is an argument, and so
--     is the table of commands where the bus runs one.
--   - Objects that are shared by pointer stand in a list, and a pointer is a position in it. A call that
--     gives up its lock on the way is split there.
--   - A ClusterMsgHeader has the layout of a little-endian platform with eight-byte alignment, 2120
--     bytes. The bytes of `recv`, the results of `send` and the steady clock are arguments; the messages
--     that a callback gets are in the result. The buffers of a link are their readable bytes.
--   - `Zlib` holds crc32, with values of 32 bits. How far the file system lets a save come is an
--     argument; the file at the path is its bytes. The clock stands still during one load.
--   - Times, deltas and list indices are integers with the bounds of an int64_t written out where the
--     code tests them or may leave them. Sizes of containers are below 2^63 and do not wrap. The dirty
--     counter and the size of a vector do not reach 2^64.
--   - A vector that is reserved beyond its largest size throws, which is an outcome of `deserialize`;
--     running out of memory is not modelled.
--   - The loops recurse on the data or on their own bound: eight attempts in evict_one, and 1024 rounds
--     in evict_if_needed. The loop of `parse` has fuel, the number of readable bytes, of which every
--     round takes one at least, and so has the loop of handle_read, where a round takes a whole frame;
--     the cycle of the expiration checker has a number of rounds, which is
--     enough if its time budget is used up within them (cycle_enough).
--
-- Not modelled: the reactor, sockets, logging, signals and threads are I/O and scheduling; SAVE, BGSAVE,
-- LASTSAVE and INFO read files and statistics; format_double prints through the C library. BGSAVE's
-- child process is process control around save. The caches of the memory pool, the rest of the
-- cluster, the scheduler of snapshots and the command table are not covered yet.
pub mod Prelude
pub mod Text
pub mod Table
pub mod Base
pub mod Datatype
pub mod Cache
pub mod Network
pub mod MemoryPool
pub mod Protocol
pub mod Command
pub mod Cluster
pub mod Persistence
pub mod Tests
