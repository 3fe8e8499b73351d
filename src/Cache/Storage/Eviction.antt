-- ===== src/Cache/Storage/Eviction.antt =====
-- src/cache/storage.cpp: `evict_one` and `evict_if_needed`.
use concurrent_cache.Prelude.{
  ℕ, zero, suc, ◌+◌, ◌%◌, Option, none, some, [], ◌∷◌, if◌then◌else◌, ltb, leb, ◌==◌, ◌&&◌, ℤ, pos,
  ltb_ℤ, leb_ℤ,
}
use concurrent_cache.Text.{Bytes}
use concurrent_cache.Table.{Table, erase}
use concurrent_cache.Cache.ExpireDict.{ExpireMap, get_expire_time, max_ms}
use concurrent_cache.Cache.Storage.{Setting, CacheEntry, Storage, shard, put_shard, forget, size}

-- The scan of a shard: the first expired key ends it, otherwise the key with the oldest access.
unfoldable pub victim : ExpireMap → ℤ → Table CacheEntry → ℤ → Option Bytes → Option Bytes
victim m now [] oldest_time oldest = oldest
victim m now ((k, e) ∷ t) oldest_time oldest =
    let at = get_expire_time m k in
    let older = ltb_ℤ e.last_access_time_ms oldest_time in
    let rest =
      victim m now t (if older then e.last_access_time_ms else oldest_time)
        (if older then some k else oldest) in
    if ltb_ℤ (pos 0) at && leb_ℤ at now then some k else rest

abbrev pub remove_victim : Storage → ℕ → Bytes → Storage
remove_victim s i key = forget (put_shard s i (erase key (shard s i))) key

-- kMaxEvictPerCycle
abbrev pub max_evict_per_cycle : ℕ
max_evict_per_cycle = 1024

module _ (env : Setting) where
  -- The attempts that are left, each on a shard that is drawn; an empty key stands for none.
  unfoldable pub evict_attempt : ℕ → Storage → ℤ → Storage × Bytes
  evict_attempt zero s now = (s, [])
  evict_attempt (suc left) s now =
      let (i, seed) = env.draw s.rng in
      let s' = record s { rng = seed } in
      elim (victim s.expire_dict now (shard s i) max_ms none) [
        | none ↦ evict_attempt left s' now
        | some key ↦ (remove_victim s' i key, key)
      ]

  unfoldable pub evict_one : Storage → ℤ → Storage × Bytes
  unfolding evict_attempt
  evict_one s now = evict_attempt 8 s now

  -- The rounds of the loop, with `evicted` of them done.
  unfoldable pub evict_loop : ℕ → ℕ → ℕ → Storage → ℤ → Storage
  evict_loop zero evicted target s now = s
  evict_loop (suc left) evicted target s now =
      let (s', key) = evict_one s now in
      let more = evict_loop left (evicted + 1) target s' now in
      elim key [
        | [] ↦ s'
        | _ ∷ _ ↦ if (evicted + 1) % 64 == 0 && leb (size s') target then s' else more
      ]

  unfoldable pub evict_if_needed : Storage → ℤ → Storage
  unfolding evict_loop evict_one
  evict_if_needed s now =
      if ltb (size s) (env.threshold s.max_entries)
      then s
      else evict_loop max_evict_per_cycle 0 (env.target s.max_entries) s now
