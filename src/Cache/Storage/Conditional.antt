-- ===== src/Cache/Storage/Conditional.antt =====
-- SET with its options: NX, XX, GET, KEEPTTL.
use concurrent_cache.Prelude.{
  ◌&&◌, ◌≡◌, refl, sym, ◌∙◌, inl, inr, Bool, true, false, Option, none, some, arith, not,
  if◌then◌else◌, is_some, ℤ, pos, negsuc, ltb_ℤ, ◌≤ℤ◌, Option-cases, Bool-cases,
}
use concurrent_cache.Text.{Bytes, str_eq, str_eq_iff, str_eq_refl}
use concurrent_cache.Table.{erase, insert_or_assign, find-erase, find-insert_or_assign}
use concurrent_cache.Datatype.Object.{CacheObject}
use concurrent_cache.Cache.ExpireDict.{
  ExpireMap, due, is_expired, expire_at, set_expire_time, max_ms, get_expire_time,
}
use concurrent_cache.Cache.ExpireDict
use concurrent_cache.Cache.ExpireDict.Ttl.{is_over, expire_at-is_over}
use concurrent_cache.Cache.Storage.{
  Setting, Storage, CacheEntry, entry_of, erase_entry, insert_entry, increment_dirty, forget,
}
use concurrent_cache.Cache.Storage.Eviction.{evict_if_needed}
use concurrent_cache.Cache.Storage.Writes.{
  drop_if_expired, SetCondition, unconditional, only_if_absent, only_if_exists, refused, value_of,
  timed, set_conditional, fresh_entry,
}
use concurrent_cache.Cache.Storage.Lookup.{WellFormed, entry_of-erase_entry, erase_entry-WellFormed}
use concurrent_cache.Cache.Storage.Evicted.{evict_if_needed-WellFormed}
use concurrent_cache.Cache.Storage.View.{view}
use concurrent_cache.Cache.Storage.Sets.{view-put, put-WellFormed}

module _ (env : Setting) (s : Storage) (key : Bytes) (now : ℤ) where
  -- The three ways of `drop_if_expired`.
  drop_missing : entry_of env s key ≡ none → drop_if_expired env s key now ≡ s
  unfolding drop_if_expired
  drop_missing h = rw (h, drop_if_expired)

  drop_kept :
      (e : CacheEntry)
      → entry_of env s key ≡ some e
      → is_expired s.expire_dict key now ≡ false
      → drop_if_expired env s key now ≡ s
  unfolding drop_if_expired
  drop_kept e h x = rw (h, drop_if_expired, x)

  drop_expired :
      (e : CacheEntry)
      → entry_of env s key ≡ some e
      → is_expired s.expire_dict key now ≡ true
      → drop_if_expired env s key now ≡ forget (erase_entry env s key) key
  unfolding drop_if_expired
  drop_expired e h x = rw (h, drop_if_expired, x)

  -- The value that is seen is left, and nothing that is seen then or later changes.
  abbrev pub Drops : Bytes → ℤ → Storage → Type 0
  Drops j later s' =
      WellFormed env s'.stores
      × (value_of env (entry_of env s' key) ≡ view env s key now)
      × (view env s' j later ≡ view env s j later)

  module _ (j : Bytes) (later : ℤ) (w : WellFormed env s.stores) (le : now ≤ℤ later) where
    pub Drops-kept :
        (e : CacheEntry)
        → entry_of env s key ≡ some e
        → is_expired s.expire_dict key now ≡ false
        → Drops j later s
    unfolding is_expired
    Drops-kept e h x = (w, rw (h, x), refl)

    pub Drops-expired :
        (e : CacheEntry)
        → entry_of env s key ≡ some e
        → is_expired s.expire_dict key now ≡ true
        → Drops j later (forget (erase_entry env s key) key)
    unfolding is_expired ExpireDict.remove
    Drops-expired e h x = (
      erase_entry-WellFormed env s w key,
      rw (entry_of-erase_entry env s w key key, str_eq_refl key, h, x),
      rw (entry_of-erase_entry env s w key j, find-erase j key s.expire_dict)
          (ground (arith, str_eq_iff key j, h)),
    )

    pub drop_if_expired-Drops : Drops j later (drop_if_expired env s key now)
    drop_if_expired-Drops = elim (Option-cases (entry_of env s key)) [
      | inl h ↦ rw (drop_missing h) (w, rw h, refl)
      | inr (e, h) ↦ elim (Bool-cases (is_expired s.expire_dict key now)) [
        | inl x ↦ rw (drop_expired e h x) (Drops-expired e h x)
        | inr x ↦ rw (drop_kept e h x) (Drops-kept e h x)
      ]
    ]

-- Whether NX and XX let a write pass, by the value that is seen.
abbrev pub allows : SetCondition → Option CacheObject → Bool
allows unconditional seen = true
allows only_if_absent seen = not (is_some seen)
allows only_if_exists seen = is_some seen

module _ (env : Setting) where
  refused-allows :
      (c : SetCondition) (e : Option CacheEntry) → refused env c e ≡ not (allows c (value_of env e))
  refused-allows unconditional none = refl
  refused-allows unconditional (some e) = refl
  refused-allows only_if_absent none = refl
  refused-allows only_if_absent (some e) = refl
  refused-allows only_if_exists none = refl
  refused-allows only_if_exists (some e) = refl

  -- What SET with options does to the key, from the store that eviction left.
  abbrev pub Sets :
      Storage
      → Bytes
      → Bytes
      → CacheObject
      → SetCondition
      → ℤ
      → ℤ
      → ℤ
      → Storage × Bool × Option CacheObject
      → Type 0
  Sets s₁ key j value condition ttl now later (s', written, previous) =
      WellFormed env s'.stores
      × (previous ≡ view env s₁ key now)
      × (written ≡ allows condition previous)
      × (view env s' j later ≡ (
          if written && str_eq key j
          then (if ltb_ℤ (pos 0) ttl && is_over now ttl later then none else some value)
          else view env s₁ j later))

  -- The write itself, on a store where nothing expired is left under the key.
  abbrev Written : Storage → Bytes → Bytes → CacheObject → ℤ → ℤ → ℤ → Storage → Type 0
  Written s key j value ttl now later s' =
      WellFormed env s'.stores
      × (view env s' j later ≡ (
          if str_eq key j
          then (if ltb_ℤ (pos 0) ttl && is_over now ttl later then none else some value)
          else view env s j later))

  Written-timed :
      (s : Storage) (key j : Bytes) (value : CacheObject) (ttl kept now later : ℤ)
      → WellFormed env s.stores
      → Written s key j value ttl now later (
          timed env
            (increment_dirty (insert_entry env s key (fresh_entry value now)))
            key
            ttl
            false
            kept
            now)
  unfolding timed ExpireDict.remove set_expire_time increment_dirty
  Written-timed s key j value ttl kept now later w =
      let e = fresh_entry value now in
      let once = insert_or_assign key (expire_at now ttl) s.expire_dict in
      let never = erase key s.expire_dict in
      elim (Bool-cases (ltb_ℤ (pos 0) ttl)) [
        | inl t ↦ rw t (
          put-WellFormed env s key e once w,
          view-put env s key j e once later w
              ∙ ground (
                arith,
                str_eq_iff key j,
                find-insert_or_assign j key (expire_at now ttl) s.expire_dict,
                expire_at-is_over now ttl later,
              ),
        )
        | inr f ↦ rw f (
          put-WellFormed env s key e never w,
          view-put env s key j e never later w
              ∙ ground (arith, str_eq_iff key j, find-erase j key s.expire_dict),
        )
      ]

  module _ (s : Storage) (key j : Bytes) (value : CacheObject) (condition : SetCondition)
      (ttl now later : ℤ) (w : WellFormed env s.stores) (le : now ≤ℤ later) where
    -- SET without KEEPTTL on a well-formed store, compared with the store that eviction left: the
    -- previous value is the one that was seen, the write happens exactly when NX or XX allow it, at
    -- `now` or later the value is seen until a positive TTL has run out or the clock stands at the
    -- largest int64_t, what is seen of other keys, or with
    -- no write, is as before, and the store is well formed.
    pub set_conditional_lem :
        Sets
          (evict_if_needed env s now)
          key
          j
          value
          condition
          ttl
          now
          later
          (set_conditional env s key value condition ttl false now)
    unfolding set_conditional
    set_conditional_lem =
        let s₁ = evict_if_needed env s now in
        let w₁ = evict_if_needed-WellFormed env s now w in
        let s₂ = drop_if_expired env s₁ key now in
        let d = drop_if_expired-Drops env s₁ key now j later w₁ le in
        let ok = refused-allows condition (entry_of env s₂ key) in
        let t = Written-timed s₂ key j value ttl (negsuc 0) now later d.0 in
        elim (Bool-cases (allows condition (value_of env (entry_of env s₂ key)))) [
          | inr no_pass ↦ rw (ok, no_pass) (d.0, d.1, sym no_pass, d.2)
          | inl pass ↦ rw (ok, pass) (t.0, d.1, sym pass, t.1 ∙ rw d.2)
        ]
