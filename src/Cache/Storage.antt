-- ===== src/Cache/Storage.antt =====
-- src/cache/storage.h and storage.cpp: `GlobalStorage`, the sharded store. A call works on the state
-- under the locks of its shard; the clock is an argument, read once in a call. What the store takes
-- from elsewhere is in `Setting`.
pub mod Eviction
pub mod Writes
pub mod Lookup
pub mod Evicts
pub mod Evicted
pub mod Growth
pub mod View
pub mod Reads
pub mod Sets
pub mod Conditional
pub mod Mutates
pub mod Counters
pub mod Races
use concurrent_cache.Prelude.{
  ℕ, zero, suc, ◌+◌, ◌-◌, ◌%◌, ◌^◌, ◌≡◌, Bool, true, false, Option, none, some, List, [], ◌∷◌, ◌++◌,
  if◌then◌else◌, length, ltb, ◌==◌, get_or, set, replicate, not, ◌&&◌, ℤ, pos, ltb_ℤ, leb_ℤ,
}
use concurrent_cache.Text.{Bytes}
use concurrent_cache.Table.{Table, find, contains, insert_or_assign, erase}
use concurrent_cache.Datatype.Object.{CacheObject}
use concurrent_cache.Cache.ExpireDict.{ExpireMap, is_expired, get_expire_time}
use concurrent_cache.Cache.ExpireDict

-- std::hash of a key, the two products of `max_entries_` with the ratios 0.9 and 0.6, and the
-- generator: the shard that it picks, and its next state.
pub record Setting : Type 0 where
  pub hash : Bytes → ℕ
  pub threshold : ℕ → ℕ
  pub target : ℕ → ℕ
  pub draw : ℕ → ℕ × ℕ

-- kDefaultShards
abbrev pub num_shards : ℕ
num_shards = 64

pub record CacheEntry : Type 0 where
  pub value : CacheObject
  pub last_access_time_ms : ℤ

pub record Storage : Type 0 where
  pub stores : List (Table CacheEntry)
  pub expire_dict : ExpireMap
  pub dirty_counter : ℕ
  pub max_entries : ℕ
  pub rng : ℕ

-- EvictionConfig::kMaxEntries
abbrev default_max_entries : ℕ
default_max_entries = 2000000

unfoldable pub new_storage : ℕ → Storage
new_storage seed = record {
  stores = replicate num_shards [];
  expire_dict = [];
  dirty_counter = 0;
  max_entries = default_max_entries;
  rng = seed;
}

-- size_t: the counter wraps around.
unfoldable pub increment_dirty : Storage → Storage
increment_dirty s = record s { dirty_counter = (s.dirty_counter + 1) % 2 ^ 64 }

unfoldable reset_dirty_count : Storage → Storage
reset_dirty_count s = record s { dirty_counter = 0 }

unfoldable consume_dirty_count : Storage → ℕ → Storage
consume_dirty_count s saved = record s {
  dirty_counter = if ltb saved s.dirty_counter then s.dirty_counter - saved else 0;
}

unfoldable set_max_entries : Storage → ℕ → Storage
set_max_entries s n = record s { max_entries = n }

abbrev pub shard : Storage → ℕ → Table CacheEntry
shard s i = get_or s.stores i []

abbrev pub put_shard : Storage → ℕ → Table CacheEntry → Storage
put_shard s i t = record s { stores = set s.stores i t }

abbrev pub forget : Storage → Bytes → Storage
forget s key = record s { expire_dict = ExpireDict.remove s.expire_dict key }

unfoldable pub total_size : List (Table CacheEntry) → ℕ
total_size [] = 0
total_size (t ∷ ts) = length t + total_size ts

unfoldable pub size : Storage → ℕ
unfolding total_size
size s = total_size s.stores

unfoldable pub clear : Storage → Storage
clear s = record s {
  stores = replicate (length s.stores) [];
  expire_dict = ExpireDict.clear_all s.expire_dict;
}

module _ (env : Setting) where
  unfoldable pub get_shard_index : Bytes → ℕ
  get_shard_index key = env.hash key % num_shards

  -- What the shard of a key holds for it.
  abbrev pub entry_of : Storage → Bytes → Option CacheEntry
  entry_of s key = find key (shard s (get_shard_index key))

  -- The calls on the shard of `key`: `insert_or_assign` and `erase`.
  abbrev pub insert_entry : Storage → Bytes → CacheEntry → Storage
  insert_entry s key e =
      put_shard s (get_shard_index key) (insert_or_assign key e (shard s (get_shard_index key)))

  abbrev pub erase_entry : Storage → Bytes → Storage
  erase_entry s key = put_shard s (get_shard_index key) (erase key (shard s (get_shard_index key)))

  unfoldable pub del : Storage → Bytes → Storage × Bool
  unfolding increment_dirty
  del s key =
      let erased = contains key (shard s (get_shard_index key)) in
      let s' = erase_entry (forget s key) key in (if erased then increment_dirty s' else s', erased)

  unfoldable pub exist : Storage → Bytes → ℤ → Bool
  exist s key now =
      if not (contains key (shard s (get_shard_index key)))
      then false
      else not (is_expired s.expire_dict key now)

  -- What `get` finds under the shared lock: the lazy deletion comes after the lock is given up.
  pub data Seen : Type 0 where
    missing : Seen
    expired : Seen
    present : CacheObject → Seen

  unfoldable pub seen_entry : Storage → Bytes → ℤ → Option CacheEntry → Storage × Seen
  seen_entry s key now none = (s, missing)
  seen_entry s key now (some e) =
      if is_expired s.expire_dict key now
      then (s, expired)
      else (insert_entry s key (record e { last_access_time_ms = now }), present e.value)

  unfoldable pub get_locked : Storage → Bytes → ℤ → Storage × Seen
  unfolding seen_entry
  get_locked s key now = seen_entry s key now (entry_of s key)

  unfoldable pub get_finish : Bytes → Storage × Seen → Storage × Option CacheObject
  get_finish key (s, missing) = (s, none)
  get_finish key (s, expired) = ((del s key).0, none)
  get_finish key (s, present v) = (s, some v)

  unfoldable pub get : Storage → Bytes → ℤ → Storage × Option CacheObject
  unfolding get_locked get_finish
  get s key now = get_finish key (get_locked s key now)

objects_of : (Bytes → Bool) → Table CacheEntry → List (Bytes × CacheObject)
objects_of gone [] = []
objects_of gone ((k, e) ∷ t) =
    if gone k then objects_of gone t else (k, e.value) ∷ objects_of gone t

objects_of_all : (Bytes → Bool) → List (Table CacheEntry) → List (Bytes × CacheObject)
objects_of_all gone [] = []
objects_of_all gone (t ∷ ts) = objects_of gone t ++ objects_of_all gone ts

unfoldable get_all_objects : Storage → ℤ → List (Bytes × CacheObject)
unfolding objects_of objects_of_all
get_all_objects s now = objects_of_all (λ k. is_expired s.expire_dict k now) s.stores

-- KVWithTTL
pub record KvWithTtl : Type 0 where
  pub key : Bytes
  pub value : CacheObject
  pub expire_time_ms : ℤ

unfoldable pub with_ttl : ExpireMap → ℤ → Table CacheEntry → List KvWithTtl
with_ttl m now [] = []
with_ttl m now ((k, e) ∷ t) =
    let at = get_expire_time m k in
    if ltb_ℤ (pos 0) at && leb_ℤ at now
    then with_ttl m now t
    else record { key = k; value = e.value; expire_time_ms = at } ∷ with_ttl m now t

unfoldable pub with_ttl_all : ExpireMap → ℤ → List (Table CacheEntry) → List KvWithTtl
with_ttl_all m now [] = []
with_ttl_all m now (t ∷ ts) = with_ttl m now t ++ with_ttl_all m now ts

unfoldable pub get_all_objects_with_ttl : Storage → ℤ → List KvWithTtl
unfolding with_ttl with_ttl_all
get_all_objects_with_ttl s now = with_ttl_all s.expire_dict now s.stores
