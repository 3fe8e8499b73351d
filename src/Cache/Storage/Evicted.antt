-- ===== src/Cache/Storage/Evicted.antt =====
-- `evict_one` and `evict_if_needed` are sequences of removals.
use concurrent_cache.Prelude.{
  ℕ, zero, suc, ◌+◌, ◌%◌, ◌≤◌, ◌≡◌, ◌≢◌, refl, ◌∙◌, ◌⊎◌, inl, inr, Bool, true, false, Option, none,
  some, [], ◌∷◌, arith, if◌then◌else◌, ◌==◌, leb, ltb, ◌&&◌, Option-cases, Bool-cases, ℤ, ltb_ℤ,
}
use concurrent_cache.Text.{Bytes, str_eq_iff, str_eq_refl}
use concurrent_cache.Table.{Table, contains}
use concurrent_cache.Cache.ExpireDict.{ExpireMap, max_ms}
use concurrent_cache.Cache.Storage.{Setting, CacheEntry, Storage, shard, entry_of, size}
use concurrent_cache.Cache.Storage.Eviction.{
  max_evict_per_cycle, victim, evict_attempt, evict_one, evict_loop, evict_if_needed,
}
use concurrent_cache.Cache.Storage.Lookup.{WellFormed}
use concurrent_cache.Cache.Storage.Evicts.{
  Evicts, stop, redraw, remove, Survives, Unchanged, Evicts-WellFormed, Evicts-Survives,
  Evicts-size, Evicts-Unchanged, Evicts-trans, entry_of-there, entry_of-remove_victim,
  size-remove_victim,
}

-- The scan names a key of the shard.
victim-contains :
    (m : ExpireMap) (now : ℤ) (t : Table CacheEntry) (oldest_time : ℤ) (oldest : Option Bytes)
    (key : Bytes)
    → victim m now t oldest_time oldest ≡ some key
    → (contains key t ≡ true) ⊎ (oldest ≡ some key)
unfolding victim contains
victim-contains m now [] oldest_time oldest key e = inr e
victim-contains m now ((k, c) ∷ t) oldest_time oldest key e =
    let older = ltb_ℤ c.last_access_time_ms oldest_time in
    ground (
      arith,
      str_eq_iff k key,
      victim-contains m now t (if older then c.last_access_time_ms else oldest_time)
          (if older then some k else oldest) key,
    )

module _ (env : Setting) where
  found :
      (s : Storage) (now : ℤ) (i : ℕ) (key : Bytes)
      → victim s.expire_dict now (shard s i) max_ms none ≡ some key
      → contains key (shard s i) ≡ true
  found s now i key e =
      ground (arith, victim-contains s.expire_dict now (shard s i) max_ms none key e)

  evict_attempt-Evicts :
      (left : ℕ) (s : Storage) (now : ℤ) → Evicts env s (evict_attempt env left s now).0
  unfolding evict_attempt
  evict_attempt-Evicts zero s now = stop
  evict_attempt-Evicts (suc left) s now =
      let i = (env.draw s.rng).0 in
      let s' = record s { rng = (env.draw s.rng).1 } in
      elim (Option-cases (victim s.expire_dict now (shard s i) max_ms none)) [
        | inl e ↦ rw (e, evict_attempt) (redraw _ (evict_attempt-Evicts left s' now))
        | inr (key, e) ↦ rw (e, evict_attempt) (redraw _ (remove i key (found s now i key e) stop))
      ]

  evict_one-Evicts : (s : Storage) (now : ℤ) → Evicts env s (evict_one env s now).0
  unfolding evict_one
  evict_one-Evicts s now = evict_attempt-Evicts 8 s now

  round :
      (s : Storage) (key : Bytes) (b : Bool) {t u : Storage}
      → Evicts env s t
      → Evicts env s u
      → Evicts env s (elim key [ [] ↦ t | _ ∷ _ ↦ if b then t else u ])
  round s [] b e f = e
  round s (c ∷ key) true e f = e
  round s (c ∷ key) false e f = f

  evict_loop-Evicts :
      (left evicted target : ℕ) (s : Storage) (now : ℤ)
      → Evicts env s (evict_loop env left evicted target s now)
  unfolding evict_loop
  evict_loop-Evicts zero evicted target s now = stop
  evict_loop-Evicts (suc left) evicted target s now =
      let one = evict_one-Evicts s now in
      let s' = (evict_one env s now).0 in
      round s (evict_one env s now).1 (((evicted + 1) % 64 == 0) && leb (size s') target) one
        (Evicts-trans env one (evict_loop-Evicts left (evicted + 1) target s' now))

  evict_if_needed-Evicts : (s : Storage) (now : ℤ) → Evicts env s (evict_if_needed env s now)
  unfolding evict_if_needed
  evict_if_needed-Evicts s now = elim (Bool-cases (ltb (size s) (env.threshold s.max_entries))) [
    | inl below ↦ rw below stop
    | inr full ↦ rw full (evict_loop-Evicts max_evict_per_cycle 0 (env.target s.max_entries) s now)
  ]

  pub evict_if_needed-WellFormed :
      (s : Storage) (now : ℤ)
      → WellFormed env s.stores
      → WellFormed env (evict_if_needed env s now).stores
  evict_if_needed-WellFormed s now w = Evicts-WellFormed env (evict_if_needed-Evicts s now) w

  pub evict_if_needed-Survives :
      (s : Storage) (now : ℤ) (j : Bytes)
      → WellFormed env s.stores
      → Survives env s (evict_if_needed env s now) j
  evict_if_needed-Survives s now j w = Evicts-Survives env j (evict_if_needed-Evicts s now) w

  evict_if_needed-Unchanged : (s : Storage) (now : ℤ) → Unchanged env s (evict_if_needed env s now)
  evict_if_needed-Unchanged s now = Evicts-Unchanged env (evict_if_needed-Evicts s now)

  -- Eviction on a well-formed store keeps it well formed, never grows it, leaves the dirty counter
  -- and the limit alone, and takes a key's entry away or leaves entry and expiry as they were.
  -- Below the threshold it does nothing.
  pub evict_if_needed_lem :
      (s : Storage) (now : ℤ) (j : Bytes)
      → WellFormed env s.stores
      → let s' = evict_if_needed env s now in
        WellFormed env s'.stores
        × Survives env s s' j
        × (size s' ≤ size s)
        × Unchanged env s s'
        × ((env.threshold s.max_entries ≤ size s) ⊎ (s' ≡ s))
  evict_if_needed_lem s now j w =
      let e = evict_if_needed-Evicts s now in
      (
        Evicts-WellFormed env e w,
        Evicts-Survives env j e w,
        Evicts-size env e w,
        Evicts-Unchanged env e,
        unfold evict_if_needed in ground arith,
      )

  -- What one call of `evict_one` may have done: nothing, or exactly one key is gone.
  abbrev Removes : Storage → Storage × Bytes → Type 0
  Removes s (s', key) =
      (key ≡ []) × (size s' ≡ size s)
      ⊎ (size s' + 1 ≡ size s) × (entry_of env s key ≢ none) × (entry_of env s' key ≡ none)

  evict_attempt-Removes :
      (left : ℕ) (s : Storage) (now : ℤ)
      → WellFormed env s.stores
      → Removes s (evict_attempt env left s now)
  unfolding evict_attempt size
  evict_attempt-Removes zero s now w = inl (refl, refl)
  evict_attempt-Removes (suc left) s now w =
      let i = (env.draw s.rng).0 in
      let s' = record s { rng = (env.draw s.rng).1 } in
      elim (Option-cases (victim s.expire_dict now (shard s i) max_ms none)) [
        | inl e ↦ rw (e, evict_attempt) (evict_attempt-Removes left s' now w)
        | inr (key, e) ↦
            let there = found s now i key e in
            rw (e, evict_attempt)
              (inr (
                size-remove_victim env s' w i key there,
                entry_of-there env s' w i key there,
                entry_of-remove_victim env s' w i key there key ∙ rw (str_eq_refl key),
              ))
      ]

  -- On a well-formed store, `evict_one` returns an empty key and leaves the size, or makes the
  -- store one entry smaller and returns a key that had an entry and has none afterwards.
  pub evict_one_lem :
      (s : Storage) (now : ℤ)
      → WellFormed env s.stores
      → let r = evict_one env s now in
        (r.1 ≡ []) × (size r.0 ≡ size s)
        ⊎ (size r.0 + 1 ≡ size s) × (entry_of env s r.1 ≢ none) × (entry_of env r.0 r.1 ≡ none)
  unfolding evict_one
  evict_one_lem s now w = evict_attempt-Removes 8 s now w
