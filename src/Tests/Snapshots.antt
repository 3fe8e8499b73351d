-- ===== src/Tests/Snapshots.antt =====
-- Tests and examples for Persistence.Rdb.
use concurrent_cache.Prelude.{
  ◌+◌, ◌^◌, ◌%◌, ◌≡◌, refl, true, none, [], ◌∷◌, arith, length, pos, negsuc, inr, ◌+ℤ◌, ◌-ℤ◌,
}
use concurrent_cache.Text.{codes, str_eq}
use concurrent_cache.Datatype.Object.{CacheObject, of_list}
use concurrent_cache.Datatype.Object.Clean.{of_list-IsClean}
use concurrent_cache.Cache.Storage.{
  KvWithTtl, Storage, new_storage, insert_entry, get_all_objects_with_ttl, with_ttl_all, with_ttl,
  get_shard_index,
}
use concurrent_cache.Persistence.Rdb.{
  write_kv_pair, read_kv_pair, write_ttl, write_string, write_uint32, value_type, serialize_value,
  serialize_list, read_uint8, read_entry, read_string, read_uint, read_bytes, read_value,
  type_of_value,
}
use concurrent_cache.Text.Words.{big_endian_onto, from_big_endian}
use concurrent_cache.Base.RangeClip.{clip_range}
use concurrent_cache.Datatype.Object.Lists.{list_range}
use concurrent_cache.Persistence.Rdb.Objects.{FitsRdb}
use concurrent_cache.Persistence.Rdb.Records.{IsSaved}
use concurrent_cache.Persistence.Rdb.Snapshot.{Zlib, RdbStats, save, all_done, idle, load}
use concurrent_cache.Persistence.Rdb.Saved.{IsPositive}
use concurrent_cache.Persistence.Rdb.Views.{Shows}
use concurrent_cache.Persistence.Rdb.Loaded.{CanFill}
use concurrent_cache.Persistence.Rdb.Restart.{load-save}
use concurrent_cache.Table.{find, insert_or_assign}
use concurrent_cache.Cache.ExpireDict.{get_expire_time}
use concurrent_cache.Cache.Storage.Lookup.{
  WellFormed, new_storage-WellFormed, insert_entry-WellFormed,
}
use concurrent_cache.Cache.Storage.View.{view}
use concurrent_cache.Tests.Stores.{machine, key, other}

-- A sum in place of the CRC.
abbrev pub sum : Zlib
sum = record {
  crc32 = λ crc buf. (crc + length buf) % 2 ^ 32;
  initial = 0;
  crc32_fits = λ crc buf. omega arith;
  initial_fits = omega arith;
}

abbrev queue : CacheObject
queue = of_list (codes "x" ∷ codes "y" ∷ [])

abbrev plain : KvWithTtl
plain = record { key = key; value = queue; expire_time_ms = negsuc 0 }

abbrev lasting : KvWithTtl
lasting = record { key = other; value = queue; expire_time_ms = pos 5000 }

-- type 1, two items.
plain_bytes :
    write_kv_pair plain
    ≡ 0 ∷ 0 ∷ 0 ∷ 1 ∷ 97 ∷ 1 ∷ 0 ∷ 0 ∷ 0 ∷ 2 ∷ 0 ∷ 0 ∷ 0 ∷ 1 ∷ 120 ∷ 0 ∷ 0 ∷ 0 ∷ 1 ∷ 121 ∷ []
unfolding write_kv_pair write_ttl write_string write_uint32 big_endian_onto value_type
    serialize_value list_range clip_range ◌+ℤ◌ ◌-ℤ◌ serialize_list
plain_bytes = refl

-- An unknown type byte is an exception.
unknown_type : read_kv_pair (0 ∷ 0 ∷ 0 ∷ 1 ∷ 97 ∷ 9 ∷ 0 ∷ 0 ∷ 0 ∷ 0 ∷ 1 ∷ 2 ∷ 3 ∷ 4 ∷ []) ≡ none
unfolding read_kv_pair read_uint8 read_entry read_string read_uint read_bytes from_big_endian
    read_value type_of_value
unknown_type = refl

queue-FitsRdb : FitsRdb queue
queue-FitsRdb = record {
  text = omega arith;
  items = (omega arith, (omega arith, tt));
  item_count = omega arith;
  fields = tt;
  field_count = omega arith;
  members = tt;
  member_count = omega arith;
  scores = tt;
  score_count = omega arith;
}

lasting-IsSaved : IsSaved lasting
lasting-IsSaved = record {
  key_fits = omega arith;
  clean = of_list-IsClean (codes "x" ∷ codes "y" ∷ []);
  filled = λ e. cc;
  fits = queue-FitsRdb;
  timed = inr (4999, (refl, omega arith));
}

-- The store of one process, with a key that has a deadline, and that of the next.
abbrev old : Storage
old =
    record (insert_entry machine (new_storage 7) other
      (record { value = queue; last_access_time_ms = pos 100 })) {
        expire_dict = (other, pos 5000) ∷ [];
      }

old-WellFormed : WellFormed machine old.stores
old-WellFormed =
    insert_entry-WellFormed machine (new_storage 7) (new_storage-WellFormed machine 7) other
      (record { value = queue; last_access_time_ms = pos 100 })

taken_from_old : get_all_objects_with_ttl old (pos 200) ≡ lasting ∷ []
unfolding get_all_objects_with_ttl with_ttl_all with_ttl get_expire_time find new_storage
    insert_or_assign get_shard_index str_eq
taken_from_old = refl

abbrev no_stats : RdbStats
no_stats = record {
  last_bgsave_time_sec = pos 0;
  last_bgsave_status = idle;
  last_bgsave_keys = 0;
  total_rdb_saved_keys = 0;
}

fresh-empty : view machine (new_storage 8) other (pos 4000) ≡ none
unfolding new_storage find get_shard_index
fresh-empty = refl

old-IsPositive : IsPositive (find other old.expire_dict)
unfolding find str_eq
old-IsPositive = refl

load-save_example :
    let file = (save sum all_done (pos 200) (pos 0) old (none, no_stats)).0.0 in
    let (s', ok) = load machine (pos 1000) sum file (new_storage 8) in
    (ok ≡ true)
    × Shows
        (CanFill machine (length (get_all_objects_with_ttl old (pos 200))) (new_storage 8))
        (view machine s' other (pos 4000))
        (view machine old other (pos 4000))
load-save_example =
    load-save machine sum (pos 200) (pos 0) (pos 1000) (pos 4000) old (new_storage 8) none no_stats
      other old-WellFormed (new_storage-WellFormed machine 8)
      (rw taken_from_old (lasting-IsSaved, tt)) (rw taken_from_old ((λ e. cc), tt))
      (rw taken_from_old (omega arith)) old-IsPositive fresh-empty refl refl
