-- ===== src/Cache/Storage/Counters.antt =====
-- INCRBY: the counter arithmetic in 64 bits, and what it writes.
use concurrent_cache.Prelude.{
  ◌≡◌, refl, sym, ◌∙◌, inl, inr, Option, none, some, arith, not, if◌then◌else◌, ℤ, pos, negsuc,
  ◌+ℤ◌, ◌-ℤ◌, ◌≤ℤ◌, Option-cases, Bool-cases, when_some, ◌>>=◌,
}
use concurrent_cache.Text.{Bytes, str_eq, str_eq_iff, str_eq_refl}
use concurrent_cache.Text.Decimal.{to_string_ℤ}
use concurrent_cache.Base.IntParse.{
  parse_ll_strict, parse_ll_strict-denotes, FitsInt64, fits_int64, fitting, denotes,
}
use concurrent_cache.Table.{find, find-erase}
use concurrent_cache.Datatype.Object.{CacheObject, of_string, get_string}
use concurrent_cache.Cache.ExpireDict.{due, is_expired}
use concurrent_cache.Cache.ExpireDict
use concurrent_cache.Cache.Storage.{
  Setting, Storage, CacheEntry, entry_of, erase_entry, forget, increment_dirty,
}
use concurrent_cache.Cache.Storage.Eviction.{evict_if_needed}
use concurrent_cache.Cache.Storage.Writes.{
  value_of, fresh_entry, would_overflow, add_to, counter_of, drop_expired_counter, incrby,
}
use concurrent_cache.Cache.Storage.Lookup.{
  WellFormed, entry_of-insert_entry, entry_of-erase_entry, insert_entry-WellFormed,
  erase_entry-WellFormed,
}
use concurrent_cache.Cache.Storage.Evicted.{evict_if_needed-WellFormed}
use concurrent_cache.Cache.Storage.View.{view}
use concurrent_cache.Cache.Storage.Conditional.{Drops, Drops-kept, Drops-expired}
use concurrent_cache.Cache.Storage.Mutates.{under, unexpired}

module _ (env : Setting) where
  -- The test before the addition refuses exactly the sums that leave the int64_t.
  pub would_overflow-fits_int64 :
      (val delta : ℤ)
      → FitsInt64 val
      → FitsInt64 delta
      → would_overflow env val delta ≡ not (fits_int64 (val +ℤ delta))
  unfolding ◌+ℤ◌ ◌-ℤ◌
  would_overflow-fits_int64 (pos a) (pos b) h k = ground arith
  would_overflow-fits_int64 (pos a) (negsuc b) h k = ground arith
  would_overflow-fits_int64 (negsuc a) (pos b) h k = ground arith
  would_overflow-fits_int64 (negsuc a) (negsuc b) h k = ground arith

-- The number that a client sees under a counter; a missing one counts as 0.
abbrev pub count_seen : Option CacheObject → Option ℤ
count_seen none = some (pos 0)
count_seen (some v) = get_string v >>= parse_ll_strict

-- The sum, if it is an int64_t.
abbrev pub checked_add : ℤ → ℤ → Option ℤ
checked_add val delta = if fits_int64 (val +ℤ delta) then some (val +ℤ delta) else none

-- What is seen of the counter: the new number, or what was there.
abbrev pub recounted : Option ℤ → (ℤ → Option CacheObject) → Option CacheObject → Option CacheObject
recounted none shown old = old
recounted (some v) shown old = shown v

fitting-FitsInt64 : (d : Option ℤ) (v : ℤ) → fitting d ≡ some v → FitsInt64 v
fitting-FitsInt64 none v h = cc
fitting-FitsInt64 (some (pos n)) v h = ground (arith, h)
fitting-FitsInt64 (some (negsuc n)) v h = ground (arith, h)

count_seen-FitsInt64 : (seen : Option CacheObject) (v : ℤ) → count_seen seen ≡ some v → FitsInt64 v
count_seen-FitsInt64 none v h = ground (arith, h)
count_seen-FitsInt64 (some o) v h = elim (Option-cases (get_string o)) [
  | inl e ↦ absurd (ground (arith, rw e at h))
  | inr (text, e) ↦
      fitting-FitsInt64 (denotes text) v (sym (parse_ll_strict-denotes text) ∙ rw e at h)
]

module _ (env : Setting) where
  counter_of-count_seen : (e : Option CacheEntry) → counter_of env e ≡ count_seen (value_of env e)
  unfolding counter_of
  counter_of-count_seen none = refl
  counter_of-count_seen (some e) = elim (Option-cases (get_string e.value)) [
    | inl h ↦ rw h refl
    | inr (t, h) ↦ rw h refl
  ]

  module _ (s : Storage) (key j : Bytes) (now later : ℤ) (w : WellFormed env s.stores)
      (le : now ≤ℤ later) where
    drop_missing_counter :
        entry_of env s key ≡ none → Drops env s key now j later (forget (erase_entry env s key) key)
    unfolding ExpireDict.remove
    drop_missing_counter h = (
      erase_entry-WellFormed env s w key,
      rw (entry_of-erase_entry env s w key key, str_eq_refl key, h) refl,
      rw (entry_of-erase_entry env s w key j, find-erase j key s.expire_dict)
          (ground (arith, str_eq_iff key j, h)),
    )

    drop_expired_counter-Drops : Drops env s key now j later (drop_expired_counter env s key now)
    unfolding drop_expired_counter
    drop_expired_counter-Drops = elim (Bool-cases (is_expired s.expire_dict key now)) [
      | inl x ↦ rw x (elim (Option-cases (entry_of env s key)) [
        | inl h ↦ drop_missing_counter h
        | inr (e, h) ↦ Drops-expired env s key now j later w le e h x
      ])
      | inr x ↦ rw x (elim (Option-cases (entry_of env s key)) [
        | inl h ↦ (w, rw h refl, refl)
        | inr (e, h) ↦ Drops-kept env s key now j later w le e h x
      ])
    ]

    expiry-drop_expired_counter :
        find key (drop_expired_counter env s key now).expire_dict
        ≡ unexpired now (find key s.expire_dict)
    unfolding drop_expired_counter is_expired ExpireDict.remove
    expiry-drop_expired_counter = elim (Bool-cases (due now (find key s.expire_dict))) [
      | inl x ↦ rw x (ground (arith, find-erase key key s.expire_dict, str_eq_refl key))
      | inr x ↦ rw x refl
    ]

    -- The sum is written under the expiry that the key has.
    abbrev Adds : Option ℤ → Storage × Option ℤ → Type 0
    Adds sum r =
        WellFormed env r.0.stores
        × (r.1 ≡ sum)
        × (view env r.0 j later ≡ (
            if str_eq key j
            then recounted sum
                (λ v. under later (find key s.expire_dict) (of_string (to_string_ℤ v)))
                (view env s j later)
            else view env s j later))

    add_to-Adds :
        (val delta : ℤ)
        → FitsInt64 val
        → FitsInt64 delta
        → Adds (checked_add val delta) (add_to env s key delta now val)
    unfolding add_to increment_dirty
    add_to-Adds val delta h k = elim (Bool-cases (fits_int64 (val +ℤ delta))) [
      | inl fits ↦
          rw (would_overflow-fits_int64 env val delta h k, fits)
            (
              insert_entry-WellFormed env s w key
                  (fresh_entry (of_string (to_string_ℤ (val +ℤ delta))) now),
              refl,
              rw
                  (entry_of-insert_entry env s w key j
                    (fresh_entry (of_string (to_string_ℤ (val +ℤ delta))) now))
                  (ground (arith, str_eq_iff key j)),
            )
      | inr leaves ↦
          rw (would_overflow-fits_int64 env val delta h k, leaves) (w, refl, ground arith)
    ]

    counted-Adds :
        (delta : ℤ) (found : Option ℤ)
        → FitsInt64 delta
        → ((v : ℤ) → found ≡ some v → FitsInt64 v)
        → Adds
            (found >>= λ v. checked_add v delta)
            (when_some found (s, none) (add_to env s key delta now))
    counted-Adds delta none k h = (w, refl, ground arith)
    counted-Adds delta (some v) k h = add_to-Adds v delta (h v refl) k

  -- What INCRBY makes of the store `s₁` that eviction left; the sum stands under `expiry`.
  abbrev pub Incremented :
      Storage → Option ℤ → Bytes → Bytes → ℤ → Option ℤ → Storage × Option ℤ → Type 0
  Incremented s₁ expiry key j later sum r =
      WellFormed env r.0.stores
      × (r.1 ≡ sum)
      × (view env r.0 j later ≡ (
          if str_eq key j
          then recounted sum (λ v. under later expiry (of_string (to_string_ℤ v)))
              (view env s₁ j later)
          else view env s₁ j later))

  -- INCRBY on a well-formed store, compared with the store that eviction left: the number that is
  -- seen, or 0, plus `delta` is the answer, if the value is a string that denotes an int64_t and the
  -- sum is one. Then, at `now` or later, the key shows the sum in decimal under the expiry that it
  -- had, or for good when that had passed; else nothing is seen to change. No other key is seen to change.
  pub incrby_lem :
      (s : Storage) (key j : Bytes) (delta now later : ℤ)
      → WellFormed env s.stores
      → FitsInt64 delta
      → now ≤ℤ later
      → let s₁ = evict_if_needed env s now in
        Incremented s₁
          (unexpired now (find key s₁.expire_dict))
          key
          j
          later
          (count_seen (view env s₁ key now) >>= λ v. checked_add v delta)
          (incrby env s key delta now)
  unfolding incrby
  incrby_lem s key j delta now later w k le =
      let s₁ = evict_if_needed env s now in
      let s₂ = drop_expired_counter env s₁ key now in
      let d =
        drop_expired_counter-Drops s₁ key j now later (evict_if_needed-WellFormed env s now w) le in
      rw
        (
          sym d.1,
          sym d.2,
          sym (counter_of-count_seen (entry_of env s₂ key)),
          sym (
              expiry-drop_expired_counter s₁ key j now later
                (evict_if_needed-WellFormed env s now w) le),
        )
        (counted-Adds s₂ key j now later d.0 le delta (counter_of env (entry_of env s₂ key)) k
          (λ v e.
            count_seen-FitsInt64 (value_of env (entry_of env s₂ key)) v
              (sym (counter_of-count_seen (entry_of env s₂ key)) ∙ e)))
