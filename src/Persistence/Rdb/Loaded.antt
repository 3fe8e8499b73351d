-- ===== src/Persistence/Rdb/Loaded.antt =====
-- The store that clients see after a restart from an RDB file (persistence/rdb.cpp).
use concurrent_cache.Prelude.{
  ℕ, suc, ◌+◌, ◌^◌, ◌<◌, ◌≤◌, ◌≡◌, ◌≢◌, refl, sym, ap, arith, leb_ℤ, ◌∙◌, inl, inr, true, false,
  Option, none, some, List, [], ◌∷◌, length, ℤ, Bool-cases,
}
use mathlib.Core.Path.{subst}
use concurrent_cache.Text.{Bytes, str_eq, str_eq_iff}
use concurrent_cache.Datatype.Object.{CacheObject}
use concurrent_cache.Cache.Storage.{Setting, Storage, KvWithTtl, size}
use concurrent_cache.Cache.Storage.Lookup.{WellFormed}
use concurrent_cache.Cache.Storage.View.{view}
use concurrent_cache.Cache.Storage.Growth.{Grows}
use concurrent_cache.Persistence.Rdb.Snapshot.{Zlib, store_record, rdb_file, load}
use concurrent_cache.Persistence.Rdb.Restored.{store_all, AreSaved, load-rdb_file}
use concurrent_cache.Persistence.Rdb.Views.{
  shown, saved_view, Shows, store_record-WellFormed, store_record-Keeps, store_record-shown,
  store_record-Grows,
}

abbrev pub AreNamed : List KvWithTtl → Type 0
AreNamed [] = Unit {0}
AreNamed (kv ∷ kvs) = (kv.key ≢ []) × AreNamed kvs

-- No record has the key.
abbrev pub Lacks : Bytes → List KvWithTtl → Type 0
Lacks key [] = Unit {0}
Lacks key (kv ∷ kvs) = (str_eq kv.key key ≡ false) × Lacks key kvs

abbrev pub HasDistinctKeys : List KvWithTtl → Type 0
HasDistinctKeys [] = Unit {0}
HasDistinctKeys (kv ∷ kvs) = Lacks kv.key kvs × HasDistinctKeys kvs

Shows-trans :
    {F G H : Type 0} {a b c : Option CacheObject}
    → (F → H)
    → (G → H)
    → Shows F a c
    → Shows G b a
    → Shows H b c
Shows-trans f g h (inl (full, gone)) = inl (g full, gone)
Shows-trans f g (inl (full, e)) (inr same) = inl (f full, same ∙ e)
Shows-trans f g (inr e) (inr same) = inr (same ∙ e)

still_none : {F : Type 0} {a b : Option CacheObject} → a ≡ none → Shows F b a → b ≡ none
still_none e (inl (full, gone)) = gone
still_none e (inr same) = same ∙ e

module _ (env : Setting) where
  -- So many more entries can reach the threshold of the eviction.
  abbrev pub CanFill : ℕ → Storage → Type 0
  CanFill n s = env.threshold s.max_entries ≤ size s + n

  CanFill-more : (n : ℕ) (s : Storage) → env.threshold s.max_entries ≤ size s → CanFill n s
  CanFill-more n s h = omega (arith, h)

  CanFill-Grows : (n : ℕ) (s s' : Storage) → Grows s s' → CanFill n s' → CanFill (suc n) s
  CanFill-Grows n s s' g h =
      let limit : env.threshold s'.max_entries ≡ env.threshold s.max_entries =
        ap env.threshold g.1 in
      omega (arith, h, g.0, limit)

module _ (env : Setting) (now later : ℤ) where
  store_all-Keeps :
      (kvs : List KvWithTtl) (s : Storage) (key : Bytes)
      → WellFormed env s.stores
      → Lacks key kvs
      → Shows
          (CanFill env (length kvs) s)
          (view env (store_all env now kvs s) key later)
          (view env s key later)
  unfolding store_all
  store_all-Keeps [] s key w l = inr refl
  store_all-Keeps (kv ∷ kvs) s key w l =
      let s' = store_record env now kv s in
      Shows-trans (CanFill-more env (suc (length kvs)) s)
        (CanFill-Grows env (length kvs) s s' (store_record-Grows env now later kv s w))
        (store_record-Keeps env now later kv s w key l.0)
        (store_all-Keeps kvs s' key (store_record-WellFormed env now later kv s w) l.1)

  store_all-Shows :
      (kvs : List KvWithTtl) (s : Storage) (key : Bytes)
      → leb_ℤ now later ≡ true
      → AreSaved kvs
      → AreNamed kvs
      → HasDistinctKeys kvs
      → WellFormed env s.stores
      → view env s key later ≡ none
      → Shows
          (CanFill env (length kvs) s)
          (view env (store_all env now kvs s) key later)
          (saved_view kvs key later)
  unfolding store_all saved_view
  store_all-Shows [] s key h ok named distinct w empty = inr empty
  store_all-Shows (kv ∷ kvs) s key h ok named distinct w empty =
      let s' = store_record env now kv s in
      let w' = store_record-WellFormed env now later kv s w in
      let fill = CanFill-Grows env (length kvs) s s' (store_record-Grows env now later kv s w) in
      elim (Bool-cases (str_eq kv.key key)) [
        | inl same ↦
            let e : kv.key ≡ key = (str_eq_iff kv.key key).0 same in
            let mine =
              store_record-shown env now later kv s w ok.0 named.0 h
                (subst (λ k. view env s k later ≡ none) (sym e) empty) in
            let last =
              Shows-trans fill fill (inr mine) (store_all-Keeps kvs s' kv.key w' distinct.0) in
            rw same (
              subst
                (λ k.
                  Shows (CanFill env (suc (length kvs)) s)
                    (view env (store_all env now kvs s') k later) (shown kv later))
                e last)
        | inr other ↦ rw other (
            Shows-trans fill fill (inr refl) (
              store_all-Shows kvs s' key h ok.1 named.1 distinct.1 w'
                (still_none empty (store_record-Keeps env now later kv s w key other))))
      ]

  -- After a restart from the file of any records with distinct keys, into a store that shows nothing,
  -- each key shows at every time from then on what its record shows then, with its deadline unchanged;
  -- only when the records can fill the store, a key may show nothing. Keys without a record show
  -- nothing.
  pub load-Shows :
      (z : Zlib) (kvs : List KvWithTtl) (s : Storage) (key : Bytes)
      → leb_ℤ now later ≡ true
      → AreSaved kvs
      → AreNamed kvs
      → HasDistinctKeys kvs
      → length kvs < 2 ^ 32
      → WellFormed env s.stores
      → view env s key later ≡ none
      → let (s', ok) = load env now z (some (rdb_file z kvs)) s in
        (ok ≡ true)
        × Shows (CanFill env (length kvs) s) (view env s' key later) (saved_view kvs key later)
  load-Shows z kvs s key h ok named distinct few w empty =
      rw (load-rdb_file z env now kvs s ok few)
        (refl, store_all-Shows kvs s key h ok named distinct w empty)
