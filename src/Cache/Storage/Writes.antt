-- ===== src/Cache/Storage/Writes.antt =====
-- src/cache/storage.h and storage.cpp: the calls that write.
use concurrent_cache.Prelude.{
  ◌-◌, Bool, true, false, Option, none, some, if◌then◌else◌, length, ◌^◌, ◌==◌, ◌&&◌, ◌||◌, ℤ, pos,
  negsuc, ltb_ℤ, leb_ℤ, ◌+ℤ◌, ◌-ℤ◌, when_some,
}
use concurrent_cache.Text.{Bytes}
use concurrent_cache.Text.Decimal.{to_string_ℤ}
use concurrent_cache.Base.IntParse.{parse_ll_strict}
use concurrent_cache.Datatype.Object.{
  CacheObject, ObjectType, string, is_type, empty_object, of_string, get_string,
}
use concurrent_cache.Cache.ExpireDict.{
  is_expired, get_expire_time, set_expire_time, expire_at, max_ms,
}
use concurrent_cache.Cache.ExpireDict
use concurrent_cache.Cache.Storage.{
  Setting, CacheEntry, Storage, forget, entry_of, insert_entry, erase_entry, increment_dirty,
}
use concurrent_cache.Cache.Storage.Eviction.{evict_if_needed}

pub data SetCondition : Type 0 where
  unconditional only_if_absent only_if_exists : SetCondition

pub data StoreOp : Type 0 where
  noop write erase_key : StoreOp

pub data StringPromotion : Type 0 where
  allow reject : StringPromotion

abbrev pub fresh_entry : CacheObject → ℤ → CacheEntry
fresh_entry value now = record { value = value; last_access_time_ms = now }

abbrev record_expiry : Storage → Bytes → ℤ → Storage
record_expiry s key t = record s { expire_dict = set_expire_time s.expire_dict key t }

-- set_expire
unfoldable set_expire : Storage → Bytes → ℤ → ℤ → Storage
unfolding increment_dirty
set_expire s key ttl_ms now =
    if length key == 0 || leb_ℤ ttl_ms (pos 0)
    then s
    else increment_dirty (record s { expire_dict = ExpireDict.set s.expire_dict key ttl_ms now })

module _ (env : Setting) where
  unfoldable pub set : Storage → Bytes → CacheObject → ℤ → Storage
  unfolding increment_dirty
  set s key value now =
      let s' = evict_if_needed env s now in
      increment_dirty (insert_entry env (forget s' key) key (fresh_entry value now))

  unfoldable pub set_with_expire : Storage → Bytes → CacheObject → ℤ → ℤ → Storage
  unfolding increment_dirty
  set_with_expire s key value ttl_ms now =
      let s' = evict_if_needed env s now in
      let timed =
        if ltb_ℤ (pos 0) ttl_ms
        then record_expiry s' key (expire_at now ttl_ms)
        else forget s' key in
      increment_dirty (insert_entry env timed key (fresh_entry value now))

  -- An expired entry is dropped before the write looks at the key.
  unfoldable pub drop_if_expired : Storage → Bytes → ℤ → Storage
  drop_if_expired s key now = elim (entry_of env s key) [
    | none ↦ s
    | some _ ↦ if is_expired s.expire_dict key now then forget (erase_entry env s key) key else s
  ]

  abbrev pub refused : SetCondition → Option CacheEntry → Bool
  refused unconditional e = false
  refused only_if_absent none = false
  refused only_if_absent (some _) = true
  refused only_if_exists none = true
  refused only_if_exists (some _) = false

  abbrev pub value_of : Option CacheEntry → Option CacheObject
  value_of none = none
  value_of (some e) = some e.value

  -- The expiry record after the write.
  unfoldable pub timed : Storage → Bytes → ℤ → Bool → ℤ → ℤ → Storage
  timed s key ttl_ms true kept_expire_at now =
      if ltb_ℤ (pos 0) kept_expire_at then record_expiry s key kept_expire_at else forget s key
  timed s key ttl_ms false kept_expire_at now =
      if ltb_ℤ (pos 0) ttl_ms then record_expiry s key (expire_at now ttl_ms) else forget s key

  -- The new state, whether the value was written, and `previous`.
  unfoldable pub set_conditional :
      Storage
      → Bytes
      → CacheObject
      → SetCondition
      → ℤ
      → Bool
      → ℤ
      → Storage × Bool × Option CacheObject
  unfolding increment_dirty timed
  set_conditional s key value condition ttl_ms keep_ttl now =
      let s' = drop_if_expired (evict_if_needed env s now) key now in
      let found = entry_of env s' key in
      let kept_expire_at = if keep_ttl then get_expire_time s'.expire_dict key else negsuc 0 in
      let written = increment_dirty (insert_entry env s' key (fresh_entry value now)) in
      if refused condition found
      then (s', false, value_of found)
      else (timed written key ttl_ms keep_ttl kept_expire_at now, true, value_of found)

  abbrev pub may_use : ObjectType → StringPromotion → Option CacheEntry → Bool
  may_use want promote none = true
  may_use want allow (some e) = is_type e.value.type want || is_type e.value.type string
  may_use want reject (some e) = is_type e.value.type want

  abbrev pub object_of : Option CacheEntry → CacheObject
  object_of none = empty_object
  object_of (some e) = e.value

  unfoldable pub store_op :
      Storage → Bytes → ℤ → Option CacheEntry → CacheObject × StoreOp → Storage
  unfolding increment_dirty
  store_op s key now found (obj, noop) = s
  store_op s key now none (obj, erase_key) = s
  store_op s key now (some e) (obj, erase_key) =
      increment_dirty (forget (erase_entry env s key) key)
  store_op s key now found (obj, write) =
      increment_dirty (insert_entry env s key (fresh_entry obj now))

  -- The callback gets the object and returns it changed, with what is to be done and what it
  -- captures. A refused call answers `none`.
  unfoldable pub mutate :
      {R : Type 0}
      → Storage
      → Bytes
      → ObjectType
      → (CacheObject → CacheObject × StoreOp × R)
      → StringPromotion
      → ℤ
      → Storage × Option R
  unfolding store_op
  mutate s key want fn promote now =
      let s' = drop_if_expired (evict_if_needed env s now) key now in
      let found = entry_of env s' key in
      let (obj, op, captured) = fn (object_of found) in
      if may_use want promote found
      then (store_op s' key now found (obj, op), some captured)
      else (s', none)

  abbrev pub int64_min : ℤ
  int64_min = negsuc (2 ^ 63 - 1)

  -- The test before the addition.
  abbrev pub would_overflow : ℤ → ℤ → Bool
  would_overflow val delta =
      ltb_ℤ (pos 0) delta && ltb_ℤ (max_ms -ℤ delta) val
      || ltb_ℤ delta (pos 0) && ltb_ℤ val (int64_min -ℤ delta)

  unfoldable pub add_to : Storage → Bytes → ℤ → ℤ → ℤ → Storage × Option ℤ
  unfolding increment_dirty
  add_to s key delta now val =
      if would_overflow val delta
      then (s, none)
      else (let sum = val +ℤ delta in
          (
            increment_dirty
                (insert_entry env s key (fresh_entry (of_string (to_string_ℤ sum)) now)),
            some sum,
          ))

  -- The number that a counter holds; a missing one holds 0.
  unfoldable pub counter_of : Option CacheEntry → Option ℤ
  counter_of none = some (pos 0)
  counter_of (some e) = when_some (get_string e.value) none parse_ll_strict

  unfoldable pub drop_expired_counter : Storage → Bytes → ℤ → Storage
  drop_expired_counter s key now =
      if is_expired s.expire_dict key now then forget (erase_entry env s key) key else s

  unfoldable pub incrby : Storage → Bytes → ℤ → ℤ → Storage × Option ℤ
  unfolding add_to
  incrby s key delta now =
      let s' = drop_expired_counter (evict_if_needed env s now) key now in
      when_some (counter_of (entry_of env s' key)) (s', none) (add_to s' key delta now)
