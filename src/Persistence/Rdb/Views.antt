-- ===== src/Persistence/Rdb/Views.antt =====
-- What clients see after a file was loaded (persistence/rdb.cpp).
use concurrent_cache.Prelude.{
  ℕ, suc, ◌^◌, ◌<◌, ◌≡◌, ◌≢◌, refl, sym, ap, ◌∙◌, ◌⊎◌, inl, inr, Bool, true, false, Option, none,
  some, List, [], ◌∷◌, arith, length, if◌then◌else◌, ◌==◌, ℤ, pos, negsuc, ltb_ℤ, leb_ℤ, ◌-ℤ◌, ◌+ℤ◌,
  Bool-cases, if_either,
}
use concurrent_cache.Text.{Bytes, str_eq}
use concurrent_cache.Datatype.Object.{CacheObject}
use concurrent_cache.Cache.ExpireDict.Ttl.{expire_at-is_over}
use concurrent_cache.Cache.ExpireDict.{expire_at, max_ms}
use concurrent_cache.Cache.Storage.{Setting, Storage, KvWithTtl}
use concurrent_cache.Cache.Storage.Lookup.{WellFormed}
use concurrent_cache.Cache.Storage.View.{view, Keeps}
use concurrent_cache.Cache.Storage.Writes.{set, set_with_expire}
use concurrent_cache.Cache.Storage.Sets.{set_lem, set_with_expire_lem}
use concurrent_cache.Cache.Storage.Growth.{Grows, set-Grows, set_with_expire-Grows}
use concurrent_cache.Persistence.Rdb.Records.{IsSaved}
use concurrent_cache.Persistence.Rdb.Snapshot.{store_record}

-- What a record shows at a time.
abbrev pub shown : KvWithTtl → ℤ → Option CacheObject
shown kv later =
    if ltb_ℤ (pos 0) kv.expire_time_ms
    then (if leb_ℤ kv.expire_time_ms later then none else some kv.value)
    else some kv.value

unfoldable pub saved_view : List KvWithTtl → Bytes → ℤ → Option CacheObject
saved_view [] key later = none
saved_view (kv ∷ kvs) key later =
    let rest = saved_view kvs key later in if str_eq kv.key key then shown kv later else rest

-- A cache that may be full may have forgotten the value, and shows no other.
abbrev pub Shows : Type 0 → Option CacheObject → Option CacheObject → Type 0
Shows may_be_full seen saved = may_be_full × (seen ≡ none) ⊎ (seen ≡ saved)

-- A deadline in range is the same after a restart.
expire_at-left : (now : ℤ) (n : ℕ) → n < 2 ^ 63 → expire_at now (pos n -ℤ now) ≡ pos n
unfolding expire_at max_ms ◌-ℤ◌ ◌+ℤ◌
expire_at-left (pos m) n h = ground arith
expire_at-left (negsuc m) n h = ground arith

not_left : (now at : ℤ) → ltb_ℤ (pos 0) (at -ℤ now) ≡ false → leb_ℤ at now ≡ true
unfolding ◌-ℤ◌ ◌+ℤ◌
not_left (pos a) (pos b) h = ground arith
not_left (pos a) (negsuc b) h = ground arith
not_left (negsuc a) (pos b) h = ground arith
not_left (negsuc a) (negsuc b) h = ground arith

leb_ℤ-trans : (a b c : ℤ) → leb_ℤ a b ≡ true → leb_ℤ b c ≡ true → leb_ℤ a c ≡ true
leb_ℤ-trans a b c h h' = ground arith

has_bytes : (key : Bytes) → key ≢ [] → (length key == 0) ≡ false
has_bytes [] named = absurd (named refl)
has_bytes (b ∷ key) named = ground arith

other_key : {P : Type 0} {b : Bool} → b ≡ false → (b ≡ true) ⊎ P → P
other_key differs (inl same) = absurd cc
other_key differs (inr p) = p

module _ (env : Setting) (now later : ℤ) (kv : KvWithTtl) (s : Storage) where
  -- What holds of the store, of the store after SETEX and of the store after SET.
  store_record_either :
      (P : Storage → Type 0)
      → P s
      → P (set_with_expire env s kv.key kv.value (kv.expire_time_ms -ℤ now) now)
      → P (set env s kv.key kv.value now)
      → P (store_record env now kv s)
  unfolding store_record
  store_record_either P same timed plain = if_either P (length kv.key == 0) _ _ same (
      if_either P (ltb_ℤ (pos 0) kv.expire_time_ms) _ _
        (if_either P (ltb_ℤ (pos 0) (kv.expire_time_ms -ℤ now)) _ _ timed same) plain)

  stored_as :
      (timed left : Bool)
      → kv.key ≢ []
      → ltb_ℤ (pos 0) kv.expire_time_ms ≡ timed
      → ltb_ℤ (pos 0) (kv.expire_time_ms -ℤ now) ≡ left
      → store_record env now kv s ≡ (
          if timed
          then (if left
              then set_with_expire env s kv.key kv.value (kv.expire_time_ms -ℤ now) now
              else s)
          else set env s kv.key kv.value now)
  unfolding store_record
  stored_as timed left named e f = rw (has_bytes kv.key named, e, f) refl

  module _ (w : WellFormed env s.stores) where
    pub store_record-WellFormed : WellFormed env (store_record env now kv s).stores
    store_record-WellFormed =
        store_record_either (λ s'. WellFormed env s'.stores) w
          (set_with_expire_lem env s kv.key kv.key kv.value (kv.expire_time_ms -ℤ now) now later
            w).0
          (set_lem env s kv.key kv.key kv.value now later w).0

    pub store_record-Keeps :
        (j : Bytes) → str_eq kv.key j ≡ false → Keeps env s (store_record env now kv s) j later
    store_record-Keeps j differs =
        store_record_either (λ s'. Keeps env s s' j later) (inr refl)
          (other_key differs (
            (set_with_expire_lem env s kv.key j kv.value (kv.expire_time_ms -ℤ now) now later w).2))
          (other_key differs ((set_lem env s kv.key j kv.value now later w).2))

    pub store_record-Grows : Grows s (store_record env now kv s)
    store_record-Grows =
        store_record_either (Grows s) (omega arith, refl)
          (set_with_expire-Grows env s kv.key kv.value now w (kv.expire_time_ms -ℤ now))
          (set-Grows env s kv.key kv.value now w)

    shown_plain :
        kv.expire_time_ms ≡ negsuc 0
        → kv.key ≢ []
        → view env (store_record env now kv s) kv.key later ≡ shown kv later
    shown_plain e named =
        let never : ltb_ℤ (pos 0) kv.expire_time_ms ≡ false = rw e refl in
        let stored : store_record env now kv s ≡ set env s kv.key kv.value now =
          stored_as false (ltb_ℤ (pos 0) (kv.expire_time_ms -ℤ now)) named never refl in
        let is_shown : shown kv later ≡ some kv.value = rw never refl in
        ap (λ s'. view env s' kv.key later) stored
        ∙ (set_lem env s kv.key kv.key kv.value now later w).1
        ∙ sym is_shown

    shown_timed :
        (n : ℕ)
        → kv.expire_time_ms ≡ pos (suc n)
        → suc n < 2 ^ 63
        → kv.key ≢ []
        → leb_ℤ now later ≡ true
        → view env s kv.key later ≡ none
        → view env (store_record env now kv s) kv.key later ≡ shown kv later
    shown_timed n e lt named h absent =
        let ttl = kv.expire_time_ms -ℤ now in
        let once : ltb_ℤ (pos 0) kv.expire_time_ms ≡ true = rw e (ground arith) in
        let is_shown : shown kv later
            ≡ (if leb_ℤ kv.expire_time_ms later then none else some kv.value) =
          rw once refl in
        elim (Bool-cases (ltb_ℤ (pos 0) ttl)) [
          | inl left ↦
              let stored : store_record env now kv s
                  ≡ set_with_expire env s kv.key kv.value ttl now =
                stored_as true true named once left in
              let deadline : expire_at now ttl ≡ kv.expire_time_ms =
                rw e (expire_at-left now (suc n) lt) in
              let seen = (set_with_expire_lem env s kv.key kv.key kv.value ttl now later w).1 in
              ap (λ s'. view env s' kv.key later) stored
              ∙ (rw (left, sym (expire_at-is_over now ttl later), deadline) at seen)
              ∙ sym is_shown
          | inr past ↦
              let kept : store_record env now kv s ≡ s = stored_as true false named once past in
              let due_now : leb_ℤ kv.expire_time_ms now ≡ true =
                not_left now kv.expire_time_ms past in
              let due_later = leb_ℤ-trans kv.expire_time_ms now later due_now h in
              ap (λ s'. view env s' kv.key later) kept ∙ absent ∙ sym (is_shown ∙ rw due_later refl)
        ]

    pub store_record-shown :
        IsSaved kv
        → kv.key ≢ []
        → leb_ℤ now later ≡ true
        → view env s kv.key later ≡ none
        → view env (store_record env now kv s) kv.key later ≡ shown kv later
    store_record-shown ok named h absent = elim ok.timed [
      | inl e ↦ shown_plain e named
      | inr found ↦ shown_timed found.0 found.1.0 found.1.1 named h absent
    ]
