-- ===== src/Cache/Storage/View.antt =====
-- The abstract store: which value a client sees under a key at a time.
use concurrent_cache.Prelude.{
  ◌≡◌, ◌≤◌, refl, ap, ◌⊎◌, inl, inr, Option, none, some, if◌then◌else◌, ℤ,
}
use concurrent_cache.Text.{Bytes}
use concurrent_cache.Table.{find}
use concurrent_cache.Datatype.Object.{CacheObject}
use concurrent_cache.Cache.ExpireDict.{due}
use concurrent_cache.Cache.Storage.{Setting, Storage, CacheEntry, entry_of, size}
use concurrent_cache.Cache.Storage.Lookup.{WellFormed}
use concurrent_cache.Cache.Storage.Evicts.{Survives}
use concurrent_cache.Cache.Storage.Eviction.{evict_if_needed}
use concurrent_cache.Cache.Storage.Evicted.{evict_if_needed_lem}

-- An entry under its expiry record.
abbrev pub visible : Option CacheEntry → Option ℤ → ℤ → Option CacheObject
visible none t now = none
visible (some e) t now = if due now t then none else some e.value

module _ (env : Setting) where
  abbrev pub view : Storage → Bytes → ℤ → Option CacheObject
  view s key now = visible (entry_of env s key) (find key s.expire_dict) now

  -- A cache at its threshold may forget: the value is as it was, or gone.
  abbrev pub Keeps : Storage → Storage → Bytes → ℤ → Type 0
  Keeps s s' j now =
      (env.threshold s.max_entries ≤ size s) × (view s' j now ≡ none)
      ⊎ (view s' j now ≡ view s j now)

  Survives-Keeps :
      (s s' : Storage) (j : Bytes) (now : ℤ)
      → Survives env s s' j
      → (env.threshold s.max_entries ≤ size s) ⊎ (s' ≡ s)
      → Keeps s s' j now
  Survives-Keeps s s' j now alive (inr same) = inr (ap (λ t. view t j now) same)
  Survives-Keeps s s' j now (inl gone) (inl full) = inl (full, rw gone refl)
  Survives-Keeps s s' j now (inr (e, t)) (inl full) = inr (rw (e, t) refl)

  pub evict_if_needed-Keeps :
      (s : Storage) (j : Bytes) (at now : ℤ)
      → WellFormed env s.stores
      → Keeps s (evict_if_needed env s at) j now
  evict_if_needed-Keeps s j at now w =
      let (w', alive, smaller, unchanged, full) = evict_if_needed_lem env s at j w in
      Survives-Keeps s (evict_if_needed env s at) j now alive full
