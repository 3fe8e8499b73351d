-- ===== src/Datatype/Object/SortedSets.antt =====
-- src/datatype/object.cpp: the sorted set operations of `CacheObject`.
use concurrent_cache.Prelude.{
  ℕ, Bool, true, false, Option, none, some, List, [], if◌then◌else◌, length, ◌==◌, ◌||◌, ◌&&◌, not,
  ℤ,
}
use concurrent_cache.Text.{Bytes}
use concurrent_cache.Base.RangeClip.{clip_range}
use concurrent_cache.Datatype.Double.{Double}
use concurrent_cache.Datatype.Object.{CacheObject, string, zset, is_type, discard_string_payload}
use concurrent_cache.Datatype.Object.Lists.{in_range, actual}
use concurrent_cache.Datatype.Object.Members.{
  insert_member, score_of, erase_member, score_differs, pairs, between_scores,
}

unfoldable pub zset_add : CacheObject → Bytes → Double → CacheObject × Bool
unfolding discard_string_payload
zset_add o member score =
    if not (is_type o.type zset) && not (is_type o.type string)
    then (o, false)
    else (let o' = if is_type o.type string then discard_string_payload o else o in
        let score_changed = score_differs member score o'.zset_val in
        let kept = if score_changed then erase_member member o'.zset_val else o'.zset_val in
        let (grown, inserted) = insert_member (record { member = member; score = score }) kept in
        (record o' { type = zset; zset_val = grown }, inserted || score_changed))

unfoldable pub zset_remove : CacheObject → Bytes → CacheObject × Bool
zset_remove o member =
    if not (is_type o.type zset) then (o, false) else elim (score_of member o.zset_val) [
      | none ↦ (o, false)
      | some _ ↦ (record o { zset_val = erase_member member o.zset_val }, true)
    ]

unfoldable pub zset_score : CacheObject → Bytes → Option Double
zset_score o member = if not (is_type o.type zset) then none else score_of member o.zset_val

unfoldable pub zset_size : CacheObject → ℕ
zset_size o = length o.zset_val

unfoldable pub zset_range_by_score : CacheObject → Double → Double → List (Bytes × Double)
zset_range_by_score o lo hi =
    if not (is_type o.type zset) then [] else between_scores lo hi o.zset_val

unfoldable pub zset_range_by_index : CacheObject → ℤ → ℤ → List (Bytes × Double)
zset_range_by_index o start stop =
    let size = length o.zset_val in
    if not (is_type o.type zset)
    then []
    else if size == 0
    then []
    else in_range (pairs o.zset_val) (clip_range size (actual size start) (actual size stop))

unfoldable pub zset_all : CacheObject → List (Bytes × Double)
zset_all o = if not (is_type o.type zset) then [] else pairs o.zset_val
