-- ===== src/Datatype/Object/Hashes.antt =====
-- src/datatype/object.cpp: the hash operations of `CacheObject`.
use concurrent_cache.Prelude.{
  ℕ, Bool, true, false, Option, none, List, [], if◌then◌else◌, length, ◌&&◌, not,
}
use concurrent_cache.Text.{Bytes}
use concurrent_cache.Table.{find, contains, insert_or_assign, erase, keys}
use concurrent_cache.Datatype.Object.{CacheObject, string, hash, is_type, discard_string_payload}

unfoldable pub hash_set : CacheObject → Bytes → Bytes → CacheObject × Bool
unfolding discard_string_payload
hash_set o field value =
    if not (is_type o.type hash) && not (is_type o.type string)
    then (o, false)
    else (let o' = if is_type o.type string then discard_string_payload o else o in
        (record o' { type = hash; hash_val = insert_or_assign field value o'.hash_val }, true))

unfoldable pub hash_get : CacheObject → Bytes → Option Bytes
hash_get o field = if not (is_type o.type hash) then none else find field o.hash_val

unfoldable pub hash_del : CacheObject → Bytes → CacheObject × Bool
hash_del o field =
    if not (is_type o.type hash)
    then (o, false)
    else (record o { hash_val = erase field o.hash_val }, contains field o.hash_val)

unfoldable pub hash_exists : CacheObject → Bytes → Bool
hash_exists o field = if not (is_type o.type hash) then false else contains field o.hash_val

unfoldable pub hash_size : CacheObject → ℕ
hash_size o = length o.hash_val

unfoldable pub hash_fields : CacheObject → List Bytes
hash_fields o = if not (is_type o.type hash) then [] else keys o.hash_val

unfoldable pub hash_items : CacheObject → List (Bytes × Bytes)
hash_items o = if not (is_type o.type hash) then [] else o.hash_val
