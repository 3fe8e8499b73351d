-- ===== src/Cache/Storage/Evicts.antt =====
-- Eviction as a sequence of removals: what it does to the keys, the size and the invariant.
use concurrent_cache.Prelude.{
  ℕ, ◌+◌, ◌<◌, ◌≤◌, ◌≡◌, ◌≢◌, refl, ap, ◌∙◌, ◌⊎◌, inr, true, none, [], arith, if◌then◌else◌, length,
}
use concurrent_cache.Text.{Bytes, str_eq, str_eq_iff}
use concurrent_cache.Table.{find, contains, erase, find-erase, find-contains, length-erase}
use concurrent_cache.Cache.ExpireDict.{ExpireMap, max_ms, get_expire_time}
use concurrent_cache.Cache.ExpireDict
use concurrent_cache.Cache.Storage.{Setting, Storage, shard, get_shard_index, entry_of, size}
use concurrent_cache.Cache.Storage.Eviction.{remove_victim}
use concurrent_cache.Cache.Storage.Lookup.{
  WellFormed, erase_at-WellFormed, total_size-set, get_or-set, get_shard_index-lt,
}

module _ (env : Setting) where
  -- `s'` comes from `s` by removing keys, each from its shard and from the expiry dictionary.
  pub data Evicts : Storage → Storage → Type 0 where
    stop : {s : Storage} → Evicts s s
    redraw : {s s' : Storage} (seed : ℕ) → Evicts (record s { rng = seed }) s' → Evicts s s'
    remove :
        {s s' : Storage} (i : ℕ) (key : Bytes)
        → contains key (shard s i) ≡ true
        → Evicts (remove_victim s i key) s'
        → Evicts s s'

  module _ (s : Storage) (w : WellFormed env s.stores) (i : ℕ) (key : Bytes)
      (there : contains key (shard s i) ≡ true) where
    home : get_shard_index env key ≡ i
    home = ground (arith, w.placed i key, find-contains key (shard s i))

    in_shards : i < length s.stores
    in_shards = omega (arith, get_shard_index-lt env key, w.shards, home)

    remove_victim-WellFormed : WellFormed env (remove_victim s i key).stores
    remove_victim-WellFormed = erase_at-WellFormed env s w i key in_shards

    pub entry_of-there : entry_of env s key ≢ none
    entry_of-there = ground (arith, home, find-contains key (shard s i))

    pub entry_of-remove_victim :
        (j : Bytes)
        → entry_of env (remove_victim s i key) j ≡ (if str_eq key j then none else entry_of env s j)
    entry_of-remove_victim j =
        ap (find j)
          (get_or-set s.stores i (get_shard_index env j) (erase key (shard s i)) [] in_shards)
        ∙ ground (arith, home, str_eq_iff key j, find-erase j key (shard s i))

    pub size-remove_victim : size (remove_victim s i key) + 1 ≡ size s
    unfolding size
    size-remove_victim = ground (
      arith,
      total_size-set s.stores i (erase key (shard s i)) in_shards,
      length-erase key (shard s i) (w.distinct i),
    )

    find-remove_victim :
        (j : Bytes)
        → find j (remove_victim s i key).expire_dict
          ≡ (if str_eq key j then none else find j s.expire_dict)
    unfolding ExpireDict.remove
    find-remove_victim j = find-erase j key s.expire_dict

  -- A key that is there afterwards is as it was, with its expiry.
  abbrev pub Survives : Storage → Storage → Bytes → Type 0
  Survives s s' j =
      (entry_of env s' j ≡ none)
      ⊎ (entry_of env s' j ≡ entry_of env s j) × (find j s'.expire_dict ≡ find j s.expire_dict)

  -- What evictions leave alone.
  abbrev pub Unchanged : Storage → Storage → Type 0
  Unchanged s s' = (s'.dirty_counter ≡ s.dirty_counter) × (s'.max_entries ≡ s.max_entries)

  pub Evicts-WellFormed :
      {s s' : Storage} → Evicts s s' → WellFormed env s.stores → WellFormed env s'.stores
  Evicts-WellFormed stop w = w
  Evicts-WellFormed (redraw seed e) w = Evicts-WellFormed e w
  Evicts-WellFormed {s} (remove i key there e) w =
      Evicts-WellFormed e (remove_victim-WellFormed s w i key there)

  pub Evicts-Survives :
      {s s' : Storage} (j : Bytes) → Evicts s s' → WellFormed env s.stores → Survives s s' j
  Evicts-Survives j stop w = inr (refl, refl)
  Evicts-Survives j (redraw seed e) w = Evicts-Survives j e w
  Evicts-Survives {s} j (remove i key there e) w = ground (
    arith,
    Evicts-Survives j e (remove_victim-WellFormed s w i key there),
    entry_of-remove_victim s w i key there j,
    find-remove_victim s w i key there j,
  )

  pub Evicts-size : {s s' : Storage} → Evicts s s' → WellFormed env s.stores → size s' ≤ size s
  unfolding size
  Evicts-size stop w = omega arith
  Evicts-size (redraw seed e) w = Evicts-size e w
  Evicts-size {s} (remove i key there e) w = omega (
    arith,
    size-remove_victim s w i key there,
    Evicts-size e (remove_victim-WellFormed s w i key there),
  )

  pub Evicts-Unchanged : {s s' : Storage} → Evicts s s' → Unchanged s s'
  Evicts-Unchanged stop = (refl, refl)
  Evicts-Unchanged (redraw seed e) = Evicts-Unchanged e
  Evicts-Unchanged (remove i key there e) = Evicts-Unchanged e

  pub Evicts-trans : {s t u : Storage} → Evicts s t → Evicts t u → Evicts s u
  Evicts-trans stop f = f
  Evicts-trans (redraw seed e) f = redraw seed (Evicts-trans e f)
  Evicts-trans (remove i key there e) f = remove i key there (Evicts-trans e f)
