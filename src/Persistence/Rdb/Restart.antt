-- ===== src/Persistence/Rdb/Restart.antt =====
-- Saving the store and loading the file (persistence/rdb.cpp, cache/storage.cpp).
use concurrent_cache.Prelude.{
  ℕ, zero, suc, ◌+◌, ◌<◌, ◌≡◌, ◌≢◌, refl, ◌∙◌, ◌⊎◌, inl, inr, true, Option, none, some, List, [],
  ◌∷◌, ◌++◌, arith, ◌^◌, length, get_or, ℤ, leb_ℤ, Option-cases, if_either,
}
use mathlib.Core.Path.{subst}
use concurrent_cache.Text.{Bytes, str_eq_refl}
use concurrent_cache.Table.{Table, find, IsDistinct}
use concurrent_cache.Cache.ExpireDict.{ExpireMap}
use concurrent_cache.Cache.Storage.{
  Setting, Storage, CacheEntry, KvWithTtl, with_ttl, with_ttl_all, get_all_objects_with_ttl,
  get_shard_index,
}
use concurrent_cache.Cache.Storage.Lookup.{WellFormed}
use concurrent_cache.Cache.Storage.View.{view, visible}
use concurrent_cache.Persistence.Rdb.Views.{saved_view}
use concurrent_cache.Persistence.Rdb.Loaded.{Lacks, HasDistinctKeys}
use concurrent_cache.Persistence.Rdb.Saved.{
  gone, taken, IsPositive, saved_view-Lacks, saved_view-none, Lacks-append, contains-find,
  with_ttl-Lacks, with_ttl-shown,
}
use concurrent_cache.Persistence.Rdb.Views.{Shows}
use concurrent_cache.Persistence.Rdb.Loaded.{AreNamed, CanFill, load-Shows}
use concurrent_cache.Persistence.Rdb.Restored.{AreSaved}
use concurrent_cache.Persistence.Rdb.Snapshot.{Zlib, RdbStats, save, all_done, load, rdb_file}

-- Each record's key is in no record of the others.
abbrev AreApart : List KvWithTtl → List KvWithTtl → Type 0
AreApart [] bs = Unit {0}
AreApart (a ∷ as') bs = Lacks a.key bs × AreApart as' bs

append-HasDistinctKeys :
    (as' bs : List KvWithTtl)
    → HasDistinctKeys as'
    → HasDistinctKeys bs
    → AreApart as' bs
    → HasDistinctKeys (as' ++ bs)
append-HasDistinctKeys [] bs d d' apart = d'
append-HasDistinctKeys (a ∷ as') bs d d' apart =
    (Lacks-append a.key as' bs d.0 apart.0, append-HasDistinctKeys as' bs d.1 d' apart.1)

not_there : {P : Type 0} {n i : ℕ} → (n ≡ i) ⊎ P → n ≢ i → P
not_there (inl e) differs = absurd (differs e)
not_there (inr p) differs = p

shifted : {P : Type 0} {n i : ℕ} → (suc n ≡ suc i) ⊎ P → (n ≡ i) ⊎ P
shifted (inl e) = inl (omega (arith, e))
shifted (inr p) = inr p

of_rest :
    {P : Type 0} (k : Bytes) (x : CacheEntry) (key : Bytes) (t : Table CacheEntry)
    → (find key ((k, x) ∷ t) ≡ none) ⊎ P
    → (find key t ≡ none) ⊎ P
unfolding find
of_rest k x key t (inl e) = inl (ground arith)
of_rest k x key t (inr p) = inr p

of_first :
    {P : Type 0} (k : Bytes) (x : CacheEntry) (t : Table CacheEntry)
    → (find k ((k, x) ∷ t) ≡ none) ⊎ P
    → P
unfolding find
of_first k x t (inl e) = absurd (let no : some x ≡ none = rw (str_eq_refl k) at e in cc)
of_first k x t (inr p) = p

later_shard : {P : Type 0} (n i off : ℕ) → (n ≡ suc i + off) ⊎ P → (n ≡ i + suc off) ⊎ P
later_shard n i off (inl e) = inl (omega (arith, e))
later_shard n i off (inr p) = inr p

from_zero : {P : Type 0} (n i : ℕ) → (n ≡ i) ⊎ P → (n ≡ i + 0) ⊎ P
from_zero n i (inl e) = inl (omega (arith, e))
from_zero n i (inr p) = inr p

module _ (m : ExpireMap) (now : ℤ) where
  with_ttl-HasDistinctKeys :
      (t : Table CacheEntry) → IsDistinct t → HasDistinctKeys (with_ttl m now t)
  unfolding with_ttl
  with_ttl-HasDistinctKeys [] d = tt
  with_ttl-HasDistinctKeys ((k, x) ∷ t) d =
      let rest = with_ttl-HasDistinctKeys t d.1 in
      if_either HasDistinctKeys (gone m now k) (with_ttl m now t)
        (taken m now k x ∷ with_ttl m now t) rest
        (with_ttl-Lacks m now k t (contains-find k t d.0), rest)

  with_ttl-AreApart :
      (t : Table CacheEntry) (bs : List KvWithTtl)
      → ((key : Bytes) → (find key t ≡ none) ⊎ Lacks key bs)
      → AreApart (with_ttl m now t) bs
  unfolding with_ttl find
  with_ttl-AreApart [] bs h = tt
  with_ttl-AreApart ((k, x) ∷ t) bs h =
      let rest = with_ttl-AreApart t bs (λ key. of_rest k x key t (h key)) in
      if_either (λ as'. AreApart as' bs) (gone m now k) (with_ttl m now t)
        (taken m now k x ∷ with_ttl m now t) rest (of_first k x t (h k), rest)

  with_ttl_all-Lacks :
      (key : Bytes) (ts : List (Table CacheEntry))
      → ((i : ℕ) → find key (get_or ts i []) ≡ none)
      → Lacks key (with_ttl_all m now ts)
  unfolding with_ttl_all
  with_ttl_all-Lacks key [] h = tt
  with_ttl_all-Lacks key (t ∷ ts) h =
      Lacks-append key (with_ttl m now t) (with_ttl_all m now ts) (with_ttl-Lacks m now key t (h 0))
        (with_ttl_all-Lacks key ts (λ i. h (suc i)))

  -- The key stands in the `n`-th shard only.
  with_ttl_all-shown :
      (key : Bytes) (later : ℤ) (n : ℕ) (ts : List (Table CacheEntry))
      → ((i : ℕ) → (n ≡ i) ⊎ (find key (get_or ts i []) ≡ none))
      → ((i : ℕ) → IsDistinct (get_or ts i []))
      → IsPositive (find key m)
      → leb_ℤ now later ≡ true
      → saved_view (with_ttl_all m now ts) key later
        ≡ visible (find key (get_or ts n [])) (find key m) later
  unfolding with_ttl_all saved_view find
  with_ttl_all-shown key later n [] only d p h = refl
  with_ttl_all-shown key later zero (t ∷ ts) only d p h =
      let rest = with_ttl_all-Lacks key ts (λ i. not_there (only (suc i)) (omega arith)) in
      elim (Option-cases (find key t)) [
        | inl e ↦ rw e (
            saved_view-none (with_ttl m now t ++ with_ttl_all m now ts) key later (
              Lacks-append key (with_ttl m now t) (with_ttl_all m now ts)
                (with_ttl-Lacks m now key t e) rest))
        | inr found ↦ rw found.1 (
            with_ttl-shown m now key later t found.0 (with_ttl_all m now ts) (d 0) found.1 p h rest)
      ]
  with_ttl_all-shown key later (suc n) (t ∷ ts) only d p h =
      let first = with_ttl-Lacks m now key t (not_there (only 0) (omega arith)) in
      saved_view-Lacks (with_ttl m now t) (with_ttl_all m now ts) key later first
      ∙ with_ttl_all-shown key later n ts (λ i. shifted (only (suc i))) (λ i. d (suc i)) p h

  -- The shards from the `off`-th on, where each key stands in its own shard only.
  with_ttl_all-HasDistinctKeys :
      (index : Bytes → ℕ) (off : ℕ) (ts : List (Table CacheEntry))
      → ((i : ℕ) (key : Bytes) → (index key ≡ i + off) ⊎ (find key (get_or ts i []) ≡ none))
      → ((i : ℕ) → IsDistinct (get_or ts i []))
      → HasDistinctKeys (with_ttl_all m now ts)
  unfolding with_ttl_all
  with_ttl_all-HasDistinctKeys index off [] placed d = tt
  with_ttl_all-HasDistinctKeys index off (t ∷ ts) placed d =
      append-HasDistinctKeys (with_ttl m now t) (with_ttl_all m now ts)
        (with_ttl-HasDistinctKeys t (d 0))
        (with_ttl_all-HasDistinctKeys index (suc off) ts
          (λ i key. later_shard (index key) i off (placed (suc i) key)) (λ i. d (suc i)))
        (with_ttl-AreApart t (with_ttl_all m now ts) (λ key. elim (placed 0 key) [
          | inr e ↦ inl e
          | inl here ↦ inr (
              with_ttl_all-Lacks key ts (λ i. not_there (placed (suc i) key) (omega (arith, here))))
        ]))

module _ (env : Setting) (now : ℤ) (s : Storage) (w : WellFormed env s.stores) where
  -- What save takes shows what the store shows from then on.
  get_all_objects_with_ttl-shown :
      (key : Bytes) (later : ℤ)
      → IsPositive (find key s.expire_dict)
      → leb_ℤ now later ≡ true
      → saved_view (get_all_objects_with_ttl s now) key later ≡ view env s key later
  unfolding get_all_objects_with_ttl
  get_all_objects_with_ttl-shown key later p h =
      with_ttl_all-shown s.expire_dict now key later (get_shard_index env key) s.stores
        (λ i. w.placed i key) w.distinct p h

  get_all_objects_with_ttl-HasDistinctKeys : HasDistinctKeys (get_all_objects_with_ttl s now)
  unfolding get_all_objects_with_ttl
  get_all_objects_with_ttl-HasDistinctKeys =
      with_ttl_all-HasDistinctKeys s.expire_dict now (get_shard_index env) 0 s.stores
        (λ i key. from_zero (get_shard_index env key) i (w.placed i key)) w.distinct

-- A restart: a store is saved at one time, and the file is loaded into a store that shows nothing. At
-- every time after both a key shows what the old store shows then, with the same deadline; only when
-- the keys can fill the new store up to the threshold of its eviction, a key may show nothing. The
-- records of the old store fit the format, no key is empty, and every deadline is a positive time.
pub load-save :
    (env : Setting) (z : Zlib) (saved_at now_sec now later : ℤ) (old fresh : Storage)
    (disk : Option Bytes) (stats : RdbStats) (key : Bytes)
    → WellFormed env old.stores
    → WellFormed env fresh.stores
    → AreSaved (get_all_objects_with_ttl old saved_at)
    → AreNamed (get_all_objects_with_ttl old saved_at)
    → length (get_all_objects_with_ttl old saved_at) < 2 ^ 32
    → IsPositive (find key old.expire_dict)
    → view env fresh key later ≡ none
    → leb_ℤ saved_at later ≡ true
    → leb_ℤ now later ≡ true
    → let file = (save z all_done saved_at now_sec old (disk, stats)).0.0 in
      let (s', ok) = load env now z file fresh in
      (ok ≡ true)
      × Shows
          (CanFill env (length (get_all_objects_with_ttl old saved_at)) fresh)
          (view env s' key later)
          (view env old key later)
unfolding save
load-save env z saved_at now_sec now later old fresh disk stats key w w' ok named few p empty h h' =
    let kvs = get_all_objects_with_ttl old saved_at in
    let loaded =
      load-Shows env now later z kvs fresh key h' ok named
        (get_all_objects_with_ttl-HasDistinctKeys env saved_at old w) few w' empty in
    (
      loaded.0,
      subst
          (Shows (CanFill env (length kvs) fresh)
            (view env (load env now z (some (rdb_file z kvs)) fresh).0 key later))
          (get_all_objects_with_ttl-shown env saved_at old w key later p h) loaded.1,
    )
