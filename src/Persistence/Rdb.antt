-- ===== src/Persistence/Rdb.antt =====
-- persistence/rdb.h, rdb.cpp: the fields of an RDB file and its records. A file that is open for
-- reading is the list of the bytes from its position to its end, the four of the CRC included; a
-- reader's `none` is an exception.
pub mod Fields
pub mod Values
pub mod Objects
pub mod Records
pub mod Snapshot
pub mod Restored
pub mod Views
pub mod Loaded
pub mod Saved
pub mod Restart
use concurrent_cache.Prelude.{
  ℕ, zero, suc, ◌+◌, ◌-◌, ◌*◌, ◌^◌, ◌%◌, Bool, true, false, Option, none, some, ◌>>=◌, List, [],
  ◌∷◌, ◌++◌, ◌==◌, ltb, leb, if◌then◌else◌, length, take, drop, ℤ, pos, negsuc, pos_part, ltb_ℤ,
}
use concurrent_cache.Text.{Bytes}
use concurrent_cache.Text.Words.{big_endian_onto, from_big_endian}
use concurrent_cache.Datatype.Double.{Double}
use concurrent_cache.Datatype.Object.{
  CacheObject, ObjectType, string, list, hash, set, zset, empty_object, of_string, get_string,
}
use concurrent_cache.Datatype.Object.Lists.{list_push, list_range}
use concurrent_cache.Datatype.Object.Hashes.{hash_set, hash_items}
use concurrent_cache.Datatype.Object.Sets.{set_add, set_members}
use concurrent_cache.Datatype.Object.SortedSets.{zset_add, zset_all}
use concurrent_cache.Cache.Storage.{KvWithTtl}

unfoldable pub write_uint32 : ℕ → Bytes
write_uint32 val = big_endian_onto 4 val []

unfoldable pub write_uint64 : ℕ → Bytes
write_uint64 val = big_endian_onto 8 val []

-- The size is cast to 32 bits.
unfoldable pub write_string : Bytes → Bytes
write_string val = write_uint32 (length val % 2 ^ 32) ++ val

unfoldable pub serialize_list : List Bytes → Bytes
serialize_list [] = []
serialize_list (item ∷ items) = write_string item ++ serialize_list items

unfoldable pub serialize_hash : List (Bytes × Bytes) → Bytes
serialize_hash [] = []
serialize_hash ((k, v) ∷ items) = write_string k ++ (write_string v ++ serialize_hash items)

unfoldable pub serialize_zset : List (Bytes × Double) → Bytes
serialize_zset [] = []
serialize_zset ((member, score) ∷ items) =
    write_string member ++ (write_uint64 score ++ serialize_zset items)

-- The count in front of the items, cast to 32 bits.
abbrev pub counted {ℓ} : {A : Type ℓ} → (List A → Bytes) → List A → Bytes
counted write items = write_uint32 (length items % 2 ^ 32) ++ write items

-- RdbValueType
unfoldable pub value_type : ObjectType → ℕ
value_type string = 0
value_type list = 1
value_type hash = 2
value_type set = 3
value_type zset = 4

abbrev pub value_or_empty : Option Bytes → Bytes
value_or_empty none = []
value_or_empty (some v) = v

unfoldable pub serialize_value : ObjectType → CacheObject → Bytes
serialize_value string o = write_string (value_or_empty (get_string o))
serialize_value list o = counted serialize_list (list_range o (pos 0) (negsuc 0))
serialize_value hash o = counted serialize_hash (hash_items o)
serialize_value set o = counted serialize_list (set_members o)
serialize_value zset o = counted serialize_zset (zset_all o)

-- RdbSpecialMarker
abbrev pub kv_with_ttl : ℕ
kv_with_ttl = 254

abbrev pub eof_marker : ℕ
eof_marker = 255

unfoldable pub write_ttl : ℤ → Bytes
write_ttl expire_time_ms =
    if ltb_ℤ (pos 0) expire_time_ms
    then kv_with_ttl ∷ write_uint64 (pos_part expire_time_ms)
    else []

unfoldable pub write_kv_pair : KvWithTtl → Bytes
write_kv_pair kv =
    write_ttl kv.expire_time_ms
    ++ (write_string kv.key ++ (value_type kv.value.type ∷ serialize_value kv.value.type kv.value))

-- An integer of `w` bytes.
unfoldable pub read_uint : ℕ → Bytes → Option (ℕ × Bytes)
read_uint w s = if ltb (length s) w then none else some (from_big_endian (take w s) 0, drop w s)

abbrev pub read_uint32 : Bytes → Option (ℕ × Bytes)
read_uint32 = read_uint 4

abbrev pub read_uint64 : Bytes → Option (ℕ × Bytes)
read_uint64 = read_uint 8

unfoldable pub read_uint8 : Bytes → Option (ℕ × Bytes)
read_uint8 [] = none
read_uint8 (b ∷ s) = some (b, s)

-- `len` bytes, no more than remain in front of the CRC.
unfoldable pub read_bytes : ℕ → Bytes → Option (Bytes × Bytes)
read_bytes len s =
    if len == 0
    then some ([], s)
    else if ltb (length s) (4 + len)
    then none
    else some (take len s, drop len s)

unfoldable pub read_string : Bytes → Option (Bytes × Bytes)
read_string s = read_uint32 s >>= (λ r. read_bytes r.0 r.1)

unfoldable pub read_list : ℕ → CacheObject → Bytes → Option (CacheObject × Bytes)
read_list zero o s = some (o, s)
read_list (suc n) o s = read_string s >>= (λ item. read_list n (list_push o item.0 false).0 item.1)

unfoldable pub read_hash : ℕ → CacheObject → Bytes → Option (CacheObject × Bytes)
read_hash zero o s = some (o, s)
read_hash (suc n) o s = read_string s >>= (λ field.
    read_string field.1 >>= (λ value. read_hash n (hash_set o field.0 value.0).0 value.1))

unfoldable pub read_set : ℕ → CacheObject → Bytes → Option (CacheObject × Bytes)
read_set zero o s = some (o, s)
read_set (suc n) o s = read_string s >>= (λ member. read_set n (set_add o member.0).0 member.1)

unfoldable pub read_zset : ℕ → CacheObject → Bytes → Option (CacheObject × Bytes)
read_zset zero o s = some (o, s)
read_zset (suc n) o s = read_string s >>= (λ member.
    read_uint64 member.1 >>= (λ score. read_zset n (zset_add o member.0 score.0).0 score.1))

-- The five deserializers.
unfoldable pub read_payload : ObjectType → Bytes → Option (CacheObject × Bytes)
read_payload string s = read_string s >>= (λ r. some (of_string r.0, r.1))
read_payload list s = read_uint32 s >>= (λ r. read_list r.0 empty_object r.1)
read_payload hash s = read_uint32 s >>= (λ r. read_hash r.0 empty_object r.1)
read_payload set s = read_uint32 s >>= (λ r. read_set r.0 empty_object r.1)
read_payload zset s = read_uint32 s >>= (λ r. read_zset r.0 empty_object r.1)

unfoldable pub type_of_value : ℕ → Option ObjectType
type_of_value v =
    if v == 0
    then some string
    else if v == 1
    then some list
    else if v == 2
    then some hash
    else if v == 3
    then some set
    else if v == 4
    then some zset
    else none

-- An unknown type is an exception.
unfoldable pub read_value : ℕ → Bytes → Option (CacheObject × Bytes)
read_value type_val s = type_of_value type_val >>= (λ type. read_payload type s)

-- `static_cast<int64_t>`
abbrev pub to_int64 : ℕ → ℤ
to_int64 v = if ltb v (2 ^ 63) then pos v else negsuc (2 ^ 64 - 1 - v)

unfoldable pub read_entry : ℤ → Bytes → Option (KvWithTtl × Bytes)
read_entry expire_time_ms s = read_string s >>= (λ key. read_uint8 key.1 >>= (λ type_val.
    read_value type_val.0 type_val.1 >>= (λ value.
      some (record { key = key.0; value = value.0; expire_time_ms = expire_time_ms }, value.1))))

unfoldable pub read_kv_pair : Bytes → Option (KvWithTtl × Bytes)
read_kv_pair s = read_uint8 s >>= (λ marker.
    if marker.0 == kv_with_ttl
    then read_uint64 marker.1 >>= (λ expire. read_entry (to_int64 expire.0) expire.1)
    else read_entry (negsuc 0) s)
