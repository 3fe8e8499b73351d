-- ===== src/Datatype/Object/Sets.antt =====
-- src/datatype/object.cpp: the set operations of `CacheObject`.
use concurrent_cache.Prelude.{ℕ, Bool, false, List, [], if◌then◌else◌, length, ◌&&◌, not}
use concurrent_cache.Text.{Bytes}
use concurrent_cache.Table.{contains, insert_or_assign, erase, keys}
use concurrent_cache.Datatype.Object.{CacheObject, string, set, is_type, discard_string_payload}

unfoldable pub set_add : CacheObject → Bytes → CacheObject × Bool
unfolding discard_string_payload
set_add o member =
    if not (is_type o.type set) && not (is_type o.type string)
    then (o, false)
    else (let o' = if is_type o.type string then discard_string_payload o else o in
        let inserted = not (contains member o'.set_val) in
        (record o' { type = set; set_val = insert_or_assign member tt o'.set_val }, inserted))

unfoldable pub set_remove : CacheObject → Bytes → CacheObject × Bool
set_remove o member =
    if not (is_type o.type set)
    then (o, false)
    else (record o { set_val = erase member o.set_val }, contains member o.set_val)

unfoldable pub set_contains : CacheObject → Bytes → Bool
set_contains o member = if not (is_type o.type set) then false else contains member o.set_val

unfoldable pub set_size : CacheObject → ℕ
set_size o = length o.set_val

unfoldable pub set_members : CacheObject → List Bytes
set_members o = if not (is_type o.type set) then [] else keys o.set_val
