-- ===== src/Cache/Storage/Reads.antt =====
-- The calls that read, and `del`, on the abstract store.
use concurrent_cache.Prelude.{
  ◌≡◌, refl, sym, ◌∙◌, inl, inr, true, false, Option, none, some, arith, if◌then◌else◌, is_some, ℤ,
  ◌≤ℤ◌, Option-cases, Bool-cases,
}
use concurrent_cache.Text.{Bytes, str_eq, str_eq_iff}
use concurrent_cache.Table.{find, contains, erase, find-erase, find-contains, contains-some}
use concurrent_cache.Datatype.Object.{CacheObject}
use concurrent_cache.Cache.ExpireDict.{ExpireMap, due, is_expired}
use concurrent_cache.Cache.ExpireDict
use concurrent_cache.Cache.Storage.{
  Setting, Storage, CacheEntry, entry_of, get, seen_entry, del, exist, erase_entry, insert_entry,
  increment_dirty, shard, get_shard_index,
}
use concurrent_cache.Cache.Storage.Lookup.{
  WellFormed, entry_of-insert_entry, entry_of-erase_entry, insert_entry-WellFormed,
  erase_entry-WellFormed,
}
use concurrent_cache.Cache.Storage.View.{view, visible}

module _ (env : Setting) where
  contains-entry_of :
      (s : Storage) (key : Bytes)
      → contains key (shard s (get_shard_index env key)) ≡ is_some (entry_of env s key)
  contains-entry_of s key = elim (Option-cases (entry_of env s key)) [
    | inl h ↦ rw h (find-contains key (shard s (get_shard_index env key)) h)
    | inr (e, h) ↦ rw h (contains-some key (shard s (get_shard_index env key)) e h)
  ]

  -- In a well-formed store, `del` hides the key at every time, leaves what is seen of every other
  -- key, keeps the store well formed, and answers whether the key had an entry.
  pub del_lem :
      (s : Storage) (key j : Bytes) (now : ℤ)
      → WellFormed env s.stores
      → let r = del env s key in
        WellFormed env r.0.stores
        × (view env r.0 j now ≡ (if str_eq key j then none else view env s j now))
        × (r.1 ≡ is_some (entry_of env s key))
  unfolding del ExpireDict.remove increment_dirty
  del_lem s key j now w = elim (Bool-cases (contains key (shard s (get_shard_index env key)))) [
    | inl there ↦
        rw there (erase_entry-WellFormed env s w key, gone, sym there ∙ contains-entry_of s key)
    | inr absent ↦
        rw absent (erase_entry-WellFormed env s w key, gone, sym absent ∙ contains-entry_of s key)
  ]
    where
      gone :
          visible (entry_of env (erase_entry env s key) j) (find j (erase key s.expire_dict)) now
          ≡ (if str_eq key j then none else view env s j now)
      gone = rw (entry_of-erase_entry env s w key j, find-erase j key s.expire_dict) (ground arith)

  -- `exist` says whether a value is seen.
  pub exist-view :
      (s : Storage) (key : Bytes) (now : ℤ) → exist env s key now ≡ is_some (view env s key now)
  unfolding exist is_expired
  exist-view s key now = rw (contains-entry_of s key) (ground arith)

  -- The three ways of `get`.
  get_missing :
      (s : Storage) (key : Bytes) (now : ℤ)
      → entry_of env s key ≡ none
      → get env s key now ≡ (s, none)
  unfolding get
  get_missing s key now h = rw (h, seen_entry)

  get_expired :
      (s : Storage) (key : Bytes) (now : ℤ) (e : CacheEntry)
      → entry_of env s key ≡ some e
      → is_expired s.expire_dict key now ≡ true
      → get env s key now ≡ ((del env s key).0, none)
  unfolding get
  get_expired s key now e h x = rw (h, seen_entry, x)

  get_present :
      (s : Storage) (key : Bytes) (now : ℤ) (e : CacheEntry)
      → entry_of env s key ≡ some e
      → is_expired s.expire_dict key now ≡ false
      → get env s key now
        ≡ (insert_entry env s key (record e { last_access_time_ms = now }), some e.value)
  unfolding get
  get_present s key now e h x = rw (h, seen_entry, x)

  abbrev pub Reads : Storage → Bytes → Bytes → ℤ → ℤ → Storage × Option CacheObject → Type 0
  Reads s key j now later r =
      WellFormed env r.0.stores
      × (r.1 ≡ view env s key now)
      × (view env r.0 j later ≡ view env s j later)

  module _ (s : Storage) (key j : Bytes) (now later : ℤ) (w : WellFormed env s.stores)
      (le : now ≤ℤ later) where
    Reads-missing : entry_of env s key ≡ none → Reads s key j now later (s, none)
    Reads-missing h = (w, rw h, refl)

    Reads-expired :
        (e : CacheEntry)
        → entry_of env s key ≡ some e
        → is_expired s.expire_dict key now ≡ true
        → Reads s key j now later ((del env s key).0, none)
    unfolding is_expired
    Reads-expired e h x =
        let d = del_lem s key j later w in (d.0, rw (h, x), d.1 ∙ ground (arith, str_eq_iff key j))

    Reads-present :
        (e : CacheEntry)
        → entry_of env s key ≡ some e
        → is_expired s.expire_dict key now ≡ false
        → Reads s key j now later
            (insert_entry env s key (record e { last_access_time_ms = now }), some e.value)
    unfolding is_expired
    Reads-present e h x =
        let e' = record e { last_access_time_ms = now } in
        (
          insert_entry-WellFormed env s w key e',
          rw (h, x),
          rw (entry_of-insert_entry env s w key j e') (ground (arith, str_eq_iff key j)),
        )

    -- In a well-formed store, `get` at `now` returns what is seen of the key, the store stays well
    -- formed, and what is seen of any key at `now` or later is as before: what `get` deletes had
    -- expired.
    pub get_lem : Reads s key j now later (get env s key now)
    get_lem = elim (Option-cases (entry_of env s key)) [
      | inl h ↦ rw (get_missing s key now h) (Reads-missing h)
      | inr (e, h) ↦ elim (Bool-cases (is_expired s.expire_dict key now)) [
        | inl x ↦ rw (get_expired s key now e h x) (Reads-expired e h x)
        | inr x ↦ rw (get_present s key now e h x) (Reads-present e h x)
      ]
    ]
