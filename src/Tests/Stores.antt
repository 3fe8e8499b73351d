-- ===== src/Tests/Stores.antt =====
-- src/cache/storage.cpp at concrete inputs.
use concurrent_cache.Prelude.{
  suc, ◌*◌, ◌/◌, ◌%◌, ◌≤◌, ◌≡◌, ◌⊎◌, refl, true, false, some, none, [], ◌∷◌, arith, if◌then◌else◌,
  is_some, pos, ltb_ℤ,
}
use concurrent_cache.Text.{Bytes, codes, str_eq}
use concurrent_cache.Table.{find, insert_or_assign, erase, contains}
use concurrent_cache.Datatype.Object.{CacheObject, of_string}
use concurrent_cache.Cache.ExpireDict.{is_expired}
use concurrent_cache.Cache.ExpireDict.Ttl.{is_over}
use concurrent_cache.Cache.Storage.{
  Setting, Storage, new_storage, entry_of, insert_entry, size, get, get_locked, get_finish, del,
  get_shard_index, seen_entry,
}
use concurrent_cache.Cache.Storage.Eviction.{evict_if_needed}
use concurrent_cache.Cache.Storage.Writes.{set, set_with_expire, set_conditional, only_if_absent}
use concurrent_cache.Cache.Storage.Lookup.{
  WellFormed, new_storage-WellFormed, insert_entry-WellFormed,
}
use concurrent_cache.Cache.Storage.Evicts.{Survives, Unchanged}
use concurrent_cache.Cache.Storage.Evicted.{evict_if_needed_lem}
use concurrent_cache.Cache.Storage.View.{view, Keeps}
use concurrent_cache.Cache.Storage.Reads.{Reads, get_lem, del_lem}
use concurrent_cache.Cache.Storage.Sets.{set_lem, set_with_expire_lem}
use concurrent_cache.Cache.Storage.Conditional.{Sets, set_conditional_lem}
use concurrent_cache.Cache.Storage.Races.{get_locked-set-del}

-- Keys hash to their first byte; the generator counts through the shards.
abbrev pub machine : Setting
machine = record {
  hash = λ key. (elim key [ [] ↦ 0 | c ∷ cs ↦ c ]);
  threshold = λ n. n * 9 / 10;
  target = λ n. n * 6 / 10;
  draw = λ seed. (seed % 64, suc seed);
}

abbrev pub key : Bytes
key = codes "a"

abbrev pub other : Bytes
other = codes "b"

abbrev pub text : CacheObject
text = of_string (codes "v")

-- One entry, whose expiry has passed at 200.
abbrev pub stale : Storage
stale =
    record (insert_entry machine (new_storage 7) key
      (record { value = text; last_access_time_ms = pos 100 })) {
        expire_dict = (key, pos 150) ∷ [];
        max_entries = 1;
      }

pub stale-WellFormed : WellFormed machine stale.stores
stale-WellFormed =
    insert_entry-WellFormed machine (new_storage 7) (new_storage-WellFormed machine 7) key
      (record { value = text; last_access_time_ms = pos 100 })

get_run : (get machine stale key (pos 200)).1 ≡ none
unfolding get get_locked get_finish seen_entry is_expired new_storage get_shard_index find
    insert_or_assign str_eq del erase contains
get_run = refl

get_lem_example :
    Reads machine stale key other (pos 200) (pos 300) (get machine stale key (pos 200))
get_lem_example = get_lem machine stale key other (pos 200) (pos 300) stale-WellFormed (omega arith)

del_lem_example :
    let r = del machine stale key in
    WellFormed machine r.0.stores
    × (view machine r.0 other (pos 120)
        ≡ (if str_eq key other then none else view machine stale other (pos 120)))
    × (r.1 ≡ is_some (entry_of machine stale key))
del_lem_example = del_lem machine stale key other (pos 120) stale-WellFormed

evict_if_needed_lem_example :
    let s' = evict_if_needed machine stale (pos 120) in
    WellFormed machine s'.stores
    × Survives machine stale s' key
    × (size s' ≤ size stale)
    × Unchanged machine stale s'
    × ((machine.threshold 1 ≤ size stale) ⊎ (s' ≡ stale))
evict_if_needed_lem_example = evict_if_needed_lem machine stale (pos 120) key stale-WellFormed

set_lem_example :
    let s' = set machine stale other text (pos 120) in
    WellFormed machine s'.stores
    × (view machine s' other (pos 300) ≡ some text)
    × ((str_eq other key ≡ true) ⊎ Keeps machine stale s' key (pos 300))
set_lem_example = set_lem machine stale other key text (pos 120) (pos 300) stale-WellFormed

set_with_expire_lem_example :
    let s' = set_with_expire machine stale other text (pos 50) (pos 120) in
    WellFormed machine s'.stores
    × (view machine s' other (pos 150) ≡ (
        if ltb_ℤ (pos 0) (pos 50)
        then (if is_over (pos 120) (pos 50) (pos 150) then none else some text)
        else some text))
    × ((str_eq other key ≡ true) ⊎ Keeps machine stale s' key (pos 150))
set_with_expire_lem_example =
    set_with_expire_lem machine stale other key text (pos 50) (pos 120) (pos 150) stale-WellFormed

set_conditional_lem_example :
    Sets machine
      (evict_if_needed machine stale (pos 200))
      key
      other
      text
      only_if_absent
      (pos 50)
      (pos 200)
      (pos 210)
      (set_conditional machine stale key text only_if_absent (pos 50) false (pos 200))
set_conditional_lem_example =
    set_conditional_lem machine stale key other text only_if_absent (pos 50) (pos 200) (pos 210)
      stale-WellFormed (omega arith)

stale_expired : is_expired stale.expire_dict key (pos 200) ≡ true
unfolding is_expired find str_eq
stale_expired = refl

stale_there : is_some (entry_of machine stale key) ≡ true
unfolding find str_eq insert_or_assign new_storage get_shard_index
stale_there = refl

get_locked-set-del_example :
    let (s₁, seen) = get_locked machine stale key (pos 200) in
    let s₂ = set machine s₁ key text (pos 200) in
    (view machine s₂ key (pos 300) ≡ some text)
    × (view machine (get_finish machine key (s₂, seen)).0 key (pos 300) ≡ none)
get_locked-set-del_example =
    get_locked-set-del machine stale key text (pos 200) (pos 300) stale-WellFormed stale_there
      stale_expired
