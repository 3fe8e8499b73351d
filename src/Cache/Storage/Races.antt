-- ===== src/Cache/Storage/Races.antt =====
-- `get` gives its shared lock up before it deletes an expired key: what other threads may do there.
use concurrent_cache.Prelude.{◌≡◌, ◌∙◌, inl, inr, true, none, some, arith, is_some, ℤ, Option-cases}
use concurrent_cache.Text.{Bytes, str_eq_refl}
use concurrent_cache.Datatype.Object.{CacheObject}
use concurrent_cache.Cache.ExpireDict.{is_expired}
use concurrent_cache.Cache.Storage.{Setting, Storage, entry_of}
use concurrent_cache.Cache.Storage.Writes.{set}
use concurrent_cache.Cache.Storage.Lookup.{WellFormed}
use concurrent_cache.Cache.Storage.View.{view}
use concurrent_cache.Cache.Storage.{get_locked, get_finish, seen_entry}
use concurrent_cache.Cache.Storage.Sets.{set_lem}
use concurrent_cache.Cache.Storage.Reads.{del_lem}

module _ (env : Setting) where
  -- In a well-formed store, a reader finds an entry expired, then another thread stores a new value
  -- with SET, which is seen at every time, and then the reader goes on: nothing is seen of the key
  -- any more.
  pub get_locked-set-del :
      (s : Storage) (key : Bytes) (value : CacheObject) (now later : ℤ)
      → WellFormed env s.stores
      → is_some (entry_of env s key) ≡ true
      → is_expired s.expire_dict key now ≡ true
      → let (s₁, seen) = get_locked env s key now in
        let s₂ = set env s₁ key value now in
        (view env s₂ key later ≡ some value)
        × (view env (get_finish env key (s₂, seen)).0 key later ≡ none)
  unfolding get_locked get_finish
  get_locked-set-del s key value now later w there x = elim (Option-cases (entry_of env s key)) [
    | inl h ↦ ground (arith, h)
    | inr (e, h) ↦
        rw (h, seen_entry, x)
          (
            (set_lem env s key key value now later w).1,
            (del_lem env (set env s key value now) key key later
                  (set_lem env s key key value now later w).0).1
                ∙ rw (str_eq_refl key),
          )
  ]
