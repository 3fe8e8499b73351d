-- ===== src/Cache/Storage/Mutates.antt =====
-- `mutate`: the read, change and write of the container commands.
use concurrent_cache.Prelude.{
  ◌≡◌, refl, sym, Bool, true, ◌&&◌, ◌||◌, Option, none, some, arith, if◌then◌else◌, ℤ, ◌≤ℤ◌,
  Bool-cases, Option-cases, inl, inr,
}
use mathlib.Core.Path.{subst}
use concurrent_cache.Text.{Bytes, str_eq, str_eq_iff, str_eq_refl}
use concurrent_cache.Table.{find, find-erase}
use concurrent_cache.Datatype.Object.{CacheObject, ObjectType, empty_object, is_type, string}
use concurrent_cache.Cache.ExpireDict.{due, is_expired}
use concurrent_cache.Cache.ExpireDict
use concurrent_cache.Cache.Storage.{
  Setting, Storage, CacheEntry, entry_of, insert_entry, erase_entry, forget, increment_dirty,
}
use concurrent_cache.Cache.Storage.Eviction.{evict_if_needed}
use concurrent_cache.Cache.Storage.Writes.{
  StoreOp, noop, write, erase_key, StringPromotion, allow, reject, may_use, object_of, store_op,
  mutate, drop_if_expired, value_of, fresh_entry,
}
use concurrent_cache.Cache.Storage.Lookup.{
  WellFormed, entry_of-insert_entry, entry_of-erase_entry, insert_entry-WellFormed,
  erase_entry-WellFormed,
}
use concurrent_cache.Cache.Storage.Evicted.{evict_if_needed-WellFormed}
use concurrent_cache.Cache.Storage.View.{view}
use concurrent_cache.Cache.Storage.Conditional.{Drops, drop_if_expired-Drops}

-- The object that the callback gets: the one that is seen, or a new one.
abbrev pub seen_object : Option CacheObject → CacheObject
seen_object none = empty_object
seen_object (some v) = v

-- A key may be changed if it is not there, has the type, or is a string that may be taken over.
abbrev pub usable : ObjectType → StringPromotion → Option CacheObject → Bool
usable want promote none = true
usable want allow (some v) = is_type v.type want || is_type v.type string
usable want reject (some v) = is_type v.type want

-- What is seen of the key after an operation: `new` if it wrote, `old` if it did nothing.
abbrev pub after_op : StoreOp → Option CacheObject → Option CacheObject → Option CacheObject
after_op noop new old = old
after_op erase_key new old = none
after_op write new old = new

abbrev pub under : ℤ → Option ℤ → CacheObject → Option CacheObject
under later t v = if due later t then none else some v

-- The expiry of a key, unless it has passed at `now`.
abbrev pub unexpired : ℤ → Option ℤ → Option ℤ
unexpired now t = if due now t then none else t

-- The expiry under which the next value of a key stands, by its entry and its record: that of the
-- entry, unless it has passed. A record without an entry is left as it is.
abbrev pub expiry_left : Option CacheEntry → ℤ → Option ℤ → Option ℤ
expiry_left none now t = t
expiry_left (some e) now t = unexpired now t

module _ (env : Setting) where
  expiry_left-drop_if_expired :
      (s : Storage) (key : Bytes) (now : ℤ)
      → find key (drop_if_expired env s key now).expire_dict
        ≡ expiry_left (entry_of env s key) now (find key s.expire_dict)
  unfolding drop_if_expired is_expired ExpireDict.remove
  expiry_left-drop_if_expired s key now = elim (Option-cases (entry_of env s key)) [
    | inl h ↦ rw (h, drop_if_expired) refl
    | inr (e, h) ↦ elim (Bool-cases (due now (find key s.expire_dict))) [
      | inl x ↦
          rw (h, drop_if_expired, x)
            (ground (arith, find-erase key key s.expire_dict, str_eq_refl key))
      | inr x ↦ rw (h, drop_if_expired, x) refl
    ]
  ]

  may_use-usable :
      (want : ObjectType) (promote : StringPromotion) (e : Option CacheEntry)
      → may_use env want promote e ≡ usable want promote (value_of env e)
  may_use-usable want allow none = refl
  may_use-usable want reject none = refl
  may_use-usable want allow (some e) = refl
  may_use-usable want reject (some e) = refl

  object_of-seen_object : (e : Option CacheEntry) → object_of env e ≡ seen_object (value_of env e)
  object_of-seen_object none = refl
  object_of-seen_object (some e) = refl

  -- What an operation makes of a store on which nothing expired is left under the key.
  abbrev Applies : Storage → Bytes → Bytes → ℤ → CacheObject → StoreOp → Storage → Type 0
  Applies s key j later obj op s' =
      WellFormed env s'.stores
      × (view env s' j later ≡ (
          if str_eq key j
          then after_op op (under later (find key s.expire_dict) obj) (view env s j later)
          else view env s j later))

  module _ (s : Storage) (key j : Bytes) (obj : CacheObject) (now later : ℤ)
      (w : WellFormed env s.stores) where
    wrote :
        Applies s key j later obj write
          (increment_dirty (insert_entry env s key (fresh_entry obj now)))
    unfolding increment_dirty
    wrote = (
      insert_entry-WellFormed env s w key (fresh_entry obj now),
      rw (entry_of-insert_entry env s w key j (fresh_entry obj now))
          (ground (arith, str_eq_iff key j)),
    )

    erased :
        Applies s key j later obj erase_key (increment_dirty (forget (erase_entry env s key) key))
    unfolding increment_dirty ExpireDict.remove
    erased = (
      erase_entry-WellFormed env s w key,
      rw (entry_of-erase_entry env s w key j, find-erase j key s.expire_dict)
          (ground (arith, str_eq_iff key j)),
    )

    store_op-Applies :
        (found : Option CacheEntry) (op : StoreOp)
        → entry_of env s key ≡ found
        → Applies s key j later obj op (store_op env s key now found (obj, op))
    unfolding store_op
    store_op-Applies none noop h = (w, ground arith)
    store_op-Applies (some e) noop h = (w, ground arith)
    store_op-Applies none write h = wrote
    store_op-Applies (some e) write h = wrote
    store_op-Applies none erase_key h = (w, ground (arith, str_eq_iff key j, h))
    store_op-Applies (some e) erase_key h = erased

  -- What `mutate` does, from the store `s₁` that eviction left, where the callback makes `r` of the
  -- object that is seen; a new value stands under `expiry`.
  abbrev pub Mutated :
      {R : Type 0}
      → Storage
      → Option ℤ
      → Bytes
      → Bytes
      → ℤ
      → Bool
      → CacheObject × StoreOp × R
      → Storage × Option R
      → Type 0
  Mutated s₁ expiry key j later may r result =
      WellFormed env result.0.stores
      × (result.1 ≡ (if may then some r.2 else none))
      × (view env result.0 j later ≡ (
          if may && str_eq key j
          then after_op r.1 (under later expiry r.0) (view env s₁ j later)
          else view env s₁ j later))

  module _ {R : Type 0} (s : Storage) (key j : Bytes) (want : ObjectType)
      (fn : CacheObject → CacheObject × StoreOp × R) (promote : StringPromotion) (now later : ℤ)
      (w : WellFormed env s.stores) (le : now ≤ℤ later) where
    applied :
        (s₁ s₂ : Storage)
        → Drops env s₁ key now j later s₂
        → let found = entry_of env s₂ key in
          let r = fn (object_of env found) in
          Mutated s₁ (find key s₂.expire_dict) key j later (may_use env want promote found) r (
            if may_use env want promote found
            then (store_op env s₂ key now found (r.0, r.1), some r.2)
            else (s₂, none))
    applied s₁ s₂ (w₂, same, kept) =
        let found = entry_of env s₂ key in
        let r = fn (object_of env found) in
        let (w₃, shown) = store_op-Applies s₂ key j r.0 now later w₂ found r.1 refl in
        elim (Bool-cases (may_use env want promote found)) [
          | inl may ↦ rw may (w₃, refl, rw kept at shown)
          | inr refused ↦ rw refused (w₂, refl, kept)
        ]

    -- `mutate` on a well-formed store, compared with the store that eviction left: it is refused
    -- exactly when the value that is seen has another type and may not be taken over, and then nothing
    -- is seen to change. Otherwise the callback gets the object that is seen, or a new one, what it
    -- captures is returned, and at `now` or later the key shows what the callback asked for: the old value,
    -- none, or the new one under the expiry that the key had, or for good when an entry's expiry had
    -- passed. No other key is seen to change.
    pub mutate_lem :
        let s₁ = evict_if_needed env s now in
        let seen = view env s₁ key now in
        Mutated s₁
          (expiry_left (entry_of env s₁ key) now (find key s₁.expire_dict))
          key
          j
          later
          (usable want promote seen)
          (fn (seen_object seen))
          (mutate env s key want fn promote now)
    unfolding mutate
    mutate_lem =
        let s₁ = evict_if_needed env s now in
        let s₂ = drop_if_expired env s₁ key now in
        let seen = view env s₁ key now in
        let d =
          drop_if_expired-Drops env s₁ key now j later (evict_if_needed-WellFormed env s now w)
            le in
        subst
          (λ expiry.
            Mutated s₁ expiry key j later (usable want promote seen) (fn (seen_object seen))
              (mutate env s key want fn promote now))
          (expiry_left-drop_if_expired s₁ key now)
          (rw
            (
              sym d.1,
              sym (may_use-usable want promote (entry_of env s₂ key)),
              sym (object_of-seen_object (entry_of env s₂ key)),
            )
            (applied s₁ s₂ d))
