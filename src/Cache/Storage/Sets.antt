-- ===== src/Cache/Storage/Sets.antt =====
-- SET and SETEX on the abstract store.
use concurrent_cache.Prelude.{
  ◌≡◌, ◌∙◌, ◌⊎◌, inl, inr, true, none, some, arith, if◌then◌else◌, ℤ, pos, ltb_ℤ, Bool-cases,
}
use concurrent_cache.Text.{Bytes, str_eq, str_eq_iff, str_eq_refl}
use concurrent_cache.Table.{find, erase, insert_or_assign, find-erase, find-insert_or_assign}
use concurrent_cache.Datatype.Object.{CacheObject}
use concurrent_cache.Cache.ExpireDict.{
  ExpireMap, due, is_expired, expire_at, set_expire_time, max_ms, get_expire_time,
}
use concurrent_cache.Cache.ExpireDict
use concurrent_cache.Cache.ExpireDict.Ttl.{is_over, expire_at-is_over}
use concurrent_cache.Cache.Storage.{
  Setting, Storage, CacheEntry, entry_of, insert_entry, increment_dirty,
}
use concurrent_cache.Cache.Storage.Eviction.{evict_if_needed}
use concurrent_cache.Cache.Storage.Writes.{set, set_with_expire, timed, fresh_entry}
use concurrent_cache.Cache.Storage.Lookup.{
  WellFormed, entry_of-insert_entry, insert_entry-WellFormed,
}
use concurrent_cache.Cache.Storage.Evicted.{evict_if_needed-WellFormed}
use concurrent_cache.Cache.Storage.View.{view, visible, Keeps, evict_if_needed-Keeps}

module _ (env : Setting) where
  -- The store after an entry and its expiry record were written.
  abbrev pub put : Storage → Bytes → CacheEntry → ExpireMap → Storage
  put s key e m = insert_entry env (record s { expire_dict = m }) key e

  pub view-put :
      (s : Storage) (key j : Bytes) (e : CacheEntry) (m : ExpireMap) (now : ℤ)
      → WellFormed env s.stores
      → view env (put s key e m) j now ≡ (
          if str_eq key j
          then visible (some e) (find key m) now
          else visible (entry_of env s j) (find j m) now)
  view-put s key j e m now w =
      rw (entry_of-insert_entry env (record s { expire_dict = m }) w key j e)
        (ground (arith, str_eq_iff key j))

  pub put-WellFormed :
      (s : Storage) (key : Bytes) (e : CacheEntry) (m : ExpireMap)
      → WellFormed env s.stores
      → WellFormed env (put s key e m).stores
  put-WellFormed s key e m w = insert_entry-WellFormed env (record s { expire_dict = m }) w key e

  -- After SET on a well-formed store, the key has the value at every time, whatever eviction ran
  -- before, the store is well formed, and every other key shows the value that it had, or nothing
  -- when the store had reached its threshold.
  pub set_lem :
      (s : Storage) (key j : Bytes) (value : CacheObject) (now later : ℤ)
      → WellFormed env s.stores
      → let s' = set env s key value now in
        WellFormed env s'.stores
        × (view env s' key later ≡ some value)
        × ((str_eq key j ≡ true) ⊎ Keeps env s s' j later)
  unfolding set ExpireDict.remove increment_dirty
  set_lem s key j value now later w =
      let s₁ = evict_if_needed env s now in
      let w₁ = evict_if_needed-WellFormed env s now w in
      let e = fresh_entry value now in
      let m = erase key s₁.expire_dict in
      (
        put-WellFormed s₁ key e m w₁,
        view-put s₁ key key e m later w₁
            ∙ ground (arith, str_eq_refl key, find-erase key key s₁.expire_dict),
        ground (
          arith,
          view-put s₁ key j e m later w₁,
          find-erase j key s₁.expire_dict,
          evict_if_needed-Keeps env s j now later w,
        ),
      )

  -- After SETEX on a well-formed store, a positive TTL makes the value visible until it has run
  -- out or the clock stands at the largest int64_t, any other at every time; the store is well
  -- formed, and every other key shows the value that it had, or nothing when the store had reached
  -- its threshold.
  pub set_with_expire_lem :
      (s : Storage) (key j : Bytes) (value : CacheObject) (ttl now later : ℤ)
      → WellFormed env s.stores
      → let s' = set_with_expire env s key value ttl now in
        WellFormed env s'.stores
        × (view env s' key later ≡ (
            if ltb_ℤ (pos 0) ttl
            then (if is_over now ttl later then none else some value)
            else some value))
        × ((str_eq key j ≡ true) ⊎ Keeps env s s' j later)
  unfolding set_with_expire ExpireDict.remove set_expire_time increment_dirty
  set_with_expire_lem s key j value ttl now later w =
      let s₁ = evict_if_needed env s now in
      let w₁ = evict_if_needed-WellFormed env s now w in
      let e = fresh_entry value now in
      let never = erase key s₁.expire_dict in
      let once = insert_or_assign key (expire_at now ttl) s₁.expire_dict in
      let kept = evict_if_needed-Keeps env s j now later w in
      elim (Bool-cases (ltb_ℤ (pos 0) ttl)) [
        | inl timed ↦ rw timed (
          put-WellFormed s₁ key e once w₁,
          view-put s₁ key key e once later w₁
              ∙ ground (
                arith,
                str_eq_refl key,
                find-insert_or_assign key key (expire_at now ttl) s₁.expire_dict,
                expire_at-is_over now ttl later,
              ),
          ground (
            arith,
            kept,
            view-put s₁ key j e once later w₁,
            find-insert_or_assign j key (expire_at now ttl) s₁.expire_dict,
          ),
        )
        | inr forever ↦ rw forever (
          put-WellFormed s₁ key e never w₁,
          view-put s₁ key key e never later w₁
              ∙ ground (arith, str_eq_refl key, find-erase key key s₁.expire_dict),
          ground (arith, kept, view-put s₁ key j e never later w₁, find-erase j key s₁.expire_dict),
        )
      ]
