-- ===== src/Cache/Storage/Growth.antt =====
-- How the writing calls of cache/storage.cpp change the number of entries.
use concurrent_cache.Prelude.{◌+◌, ◌≤◌, ◌≡◌, [], ◌∷◌, arith, length, ℤ, pos, ltb_ℤ, if_either}
use concurrent_cache.Text.{Bytes}
use concurrent_cache.Table.{Table, insert_or_assign}
use concurrent_cache.Datatype.Object.{CacheObject}
use concurrent_cache.Cache.ExpireDict
use concurrent_cache.Cache.ExpireDict.{set_expire_time, expire_at, ExpireMap}
use concurrent_cache.Cache.Storage.{
  Setting, Storage, CacheEntry, size, shard, get_shard_index, insert_entry, increment_dirty,
}
use concurrent_cache.Cache.Storage.Eviction.{evict_if_needed}
use concurrent_cache.Cache.Storage.Lookup.{WellFormed, total_size-set, get_shard_index-lt}
use concurrent_cache.Cache.Storage.Evicted.{evict_if_needed_lem}
use concurrent_cache.Cache.Storage.Writes.{set, set_with_expire, fresh_entry}

length-insert_or_assign :
    (k : Bytes) (e : CacheEntry) (t : Table CacheEntry)
    → length (insert_or_assign k e t) ≤ length t + 1
unfolding insert_or_assign
length-insert_or_assign k e [] = omega arith
length-insert_or_assign k e ((j, d) ∷ t) = ground (arith, length-insert_or_assign k e t)

-- One entry more at most, under the same limit.
abbrev pub Grows : Storage → Storage → Type 0
Grows s s' = (size s' ≤ size s + 1) × (s'.max_entries ≡ s.max_entries)

module _ (env : Setting) where
  size-insert_entry :
      (s : Storage) (key : Bytes) (e : CacheEntry)
      → WellFormed env s.stores
      → size (insert_entry env s key e) ≤ size s + 1
  unfolding size
  size-insert_entry s key e w =
      let i = get_shard_index env key in
      omega (
        arith,
        total_size-set s.stores i (insert_or_assign key e (shard s i))
            (omega (arith, get_shard_index-lt env key, w.shards)),
        length-insert_or_assign key e (shard s i),
      )

  module _ (s : Storage) (key : Bytes) (value : CacheObject) (now : ℤ)
      (w : WellFormed env s.stores) where
    -- A write after the eviction.
    written-Grows :
        (m : ExpireMap)
        → Grows s (
            increment_dirty (
              insert_entry env
                (record (evict_if_needed env s now) { expire_dict = m })
                key
                (fresh_entry value now)))
    unfolding increment_dirty size
    written-Grows m =
        let (w', alive, smaller, unchanged, full) = evict_if_needed_lem env s now key w in
        let s' = record (evict_if_needed env s now) { expire_dict = m } in
        (omega (arith, smaller, size-insert_entry s' key (fresh_entry value now) w'), unchanged.1)

    pub set-Grows : Grows s (set env s key value now)
    unfolding set
    set-Grows = written-Grows (ExpireDict.remove (evict_if_needed env s now).expire_dict key)

    pub set_with_expire-Grows : (ttl : ℤ) → Grows s (set_with_expire env s key value ttl now)
    unfolding set_with_expire
    set_with_expire-Grows ttl =
        let s' = evict_if_needed env s now in
        if_either (λ t. Grows s (increment_dirty (insert_entry env t key (fresh_entry value now))))
          (ltb_ℤ (pos 0) ttl) _ _
          (written-Grows (set_expire_time s'.expire_dict key (expire_at now ttl)))
          (written-Grows (ExpireDict.remove s'.expire_dict key))
