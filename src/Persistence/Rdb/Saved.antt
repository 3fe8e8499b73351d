-- ===== src/Persistence/Rdb/Saved.antt =====
-- The records that `save` takes from the store show what the store shows (cache/storage.cpp,
-- persistence/rdb.cpp).
use concurrent_cache.Prelude.{
  ◌≡◌, refl, sym, ap, ◌∙◌, inl, inr, Bool, true, false, ◌&&◌, Option, none, some, List, [], ◌∷◌,
  ◌++◌, arith, ℤ, pos, ltb_ℤ, leb_ℤ, Bool-cases, if_either,
}
use mathlib.Core.Path.{subst}
use concurrent_cache.Text.{Bytes, str_eq, str_eq_iff, str_eq_refl}
use concurrent_cache.Table.{Table, find, contains, IsDistinct}
use concurrent_cache.Cache.ExpireDict.{ExpireMap, get_expire_time}
use concurrent_cache.Cache.Storage.{CacheEntry, KvWithTtl, with_ttl}
use concurrent_cache.Cache.Storage.View.{visible}
use concurrent_cache.Persistence.Rdb.Views.{saved_view}
use concurrent_cache.Persistence.Rdb.Loaded.{Lacks}

-- Every deadline is a positive time.
abbrev pub IsPositive : Option ℤ → Type 0
IsPositive none = Unit {0}
IsPositive (some t) = ltb_ℤ (pos 0) t ≡ true

pub saved_view-Lacks :
    (as' bs : List KvWithTtl) (key : Bytes) (later : ℤ)
    → Lacks key as'
    → saved_view (as' ++ bs) key later ≡ saved_view bs key later
unfolding saved_view
saved_view-Lacks [] bs key later l = refl
saved_view-Lacks (a ∷ as') bs key later l = rw l.0 (saved_view-Lacks as' bs key later l.1)

pub saved_view-none :
    (bs : List KvWithTtl) (key : Bytes) (later : ℤ) → Lacks key bs → saved_view bs key later ≡ none
unfolding saved_view
saved_view-none [] key later l = refl
saved_view-none (b ∷ bs) key later l = rw l.0 (saved_view-none bs key later l.1)

pub Lacks-append :
    (key : Bytes) (as' bs : List KvWithTtl) → Lacks key as' → Lacks key bs → Lacks key (as' ++ bs)
Lacks-append key [] bs l m = m
Lacks-append key (a ∷ as') bs l m = (l.0, Lacks-append key as' bs l.1 m)

pub contains-find :
    (key : Bytes) (t : Table CacheEntry) → contains key t ≡ false → find key t ≡ none
unfolding contains find
contains-find key [] h = refl
contains-find key ((k, x) ∷ t) h = ground (arith, contains-find key t)

module _ (m : ExpireMap) (now : ℤ) where
  abbrev pub taken : Bytes → CacheEntry → KvWithTtl
  taken k x = record { key = k; value = x.value; expire_time_ms = get_expire_time m k }

  abbrev pub gone : Bytes → Bool
  gone k = ltb_ℤ (pos 0) (get_expire_time m k) && leb_ℤ (get_expire_time m k) now

  -- A key that the shard does not have is in no record.
  pub with_ttl-Lacks :
      (key : Bytes) (t : Table CacheEntry) → find key t ≡ none → Lacks key (with_ttl m now t)
  unfolding with_ttl find
  with_ttl-Lacks key [] e = tt
  with_ttl-Lacks key ((k, x) ∷ t) e = elim (Bool-cases (str_eq k key)) [
    | inl same ↦ absurd (let no : some x ≡ none = rw same at e in cc)
    | inr other ↦
        let rest = with_ttl-Lacks key t (rw other at e) in
        if_either (Lacks key) (gone k) _ _ rest (other, rest)
  ]

  own_record :
      (key : Bytes) (later : ℤ) (x : CacheEntry) (t : Table CacheEntry) (bs : List KvWithTtl)
      (at : Option ℤ)
      → find key m ≡ at
      → IsPositive at
      → leb_ℤ now later ≡ true
      → Lacks key (with_ttl m now t)
      → Lacks key bs
      → saved_view (with_ttl m now ((key, x) ∷ t) ++ bs) key later ≡ visible (some x) at later
  unfolding with_ttl saved_view get_expire_time
  own_record key later x t bs none e p h l l' = rw (e, str_eq_refl) refl
  own_record key later x t bs (some at) e p h l l' = elim (Bool-cases (leb_ℤ at now)) [
    | inl past ↦
        let due_later : leb_ℤ at later ≡ true = ground arith in
        rw (e, p, past, due_later)
          (saved_view-none (with_ttl m now t ++ bs) key later
            (Lacks-append key (with_ttl m now t) bs l l'))
    | inr ahead ↦ rw (e, p, ahead, str_eq_refl key, p) refl
  ]

  -- The record of a key that the shard has.
  pub with_ttl-shown :
      (key : Bytes) (later : ℤ) (t : Table CacheEntry) (entry : CacheEntry) (bs : List KvWithTtl)
      → IsDistinct t
      → find key t ≡ some entry
      → IsPositive (find key m)
      → leb_ℤ now later ≡ true
      → Lacks key bs
      → saved_view (with_ttl m now t ++ bs) key later ≡ visible (some entry) (find key m) later
  unfolding with_ttl find saved_view
  with_ttl-shown key later [] entry bs d e p h l = absurd cc
  with_ttl-shown key later ((k, x) ∷ t) entry bs d e p h l = elim (Bool-cases (str_eq k key)) [
    | inl same ↦
        let here : k ≡ key = (str_eq_iff k key).0 same in
        let found : x ≡ entry = ground (arith, same) in
        let rest =
          with_ttl-Lacks key t (contains-find key t (subst (λ j. contains j t ≡ false) here d.0)) in
        subst
          (λ j.
            saved_view (with_ttl m now ((j, x) ∷ t) ++ bs) key later
            ≡ visible (some entry) (find key m) later)
          (sym here)
          (own_record key later x t bs (find key m) refl p h rest l
            ∙ ap (λ y. visible (some y) (find key m) later) found)
    | inr other ↦
        let rest = with_ttl-shown key later t entry bs d.1 (rw other at e) p h l in
        if_either
          (λ kvs. saved_view (kvs ++ bs) key later ≡ visible (some entry) (find key m) later)
          (gone k) _ _ rest (rw other rest)
  ]
