-- ===== src/Cache/ExpirationChecker/Cycle.antt =====
-- What a cycle of the expiration checker does to the store.
use concurrent_cache.Prelude.{
  ℕ, zero, suc, ◌+◌, ◌<◌, ◌≤◌, ◌≡◌, refl, ◌∙◌, Bool, true, false, List, [], ◌∷◌, if◌then◌else◌, ℤ,
  ◌≤ℤ◌, arith, Bool-cases, inl, inr,
}
use concurrent_cache.Text.{Bytes, str_eq_iff}
use concurrent_cache.Table.{find, erase, length-erase}
use concurrent_cache.Cache.ExpireDict.{get_candidates, is_expired, due}
use concurrent_cache.Cache.Storage.{
  Setting, Storage, del, size, shard, get_shard_index, increment_dirty,
}
use concurrent_cache.Cache.Storage.Lookup.{WellFormed, total_size-set, get_shard_index-lt}
use concurrent_cache.Cache.Storage.View.{view}
use concurrent_cache.Cache.Storage.Reads.{del_lem}
use concurrent_cache.Cache.ExpirationChecker.{
  Look, Round, check_key, check_keys, check_candidates, round, cycle, max_check_duration_ms,
}

module _ (env : Setting) where
  -- Nothing is seen to change under `j` at `later`, and the number has grown by that of the entries taken.
  abbrev pub Swept : Storage → ℕ → Bytes → ℤ → Storage × ℕ → Type 0
  Swept s deleted j later (s', deleted') =
      WellFormed env s'.stores
      × (view env s' j later ≡ view env s j later)
      × (size s' + deleted' ≡ size s + deleted)

  size-del :
      (s : Storage) (key : Bytes)
      → WellFormed env s.stores
      → size (del env s key).0 + (if (del env s key).1 then 1 else 0) ≡ size s
  unfolding size del increment_dirty
  size-del s key w =
      let i = get_shard_index env key in
      ground (
        arith,
        total_size-set s.stores i (erase key (shard s i))
            (omega (arith, get_shard_index-lt env key, w.shards)),
        length-erase key (shard s i) (w.distinct i),
      )

  check_key-Swept :
      (s : Storage) (key j : Bytes) (now later : ℤ) (deleted : ℕ)
      → WellFormed env s.stores
      → now ≤ℤ later
      → Swept s deleted j later (check_key env s key now deleted)
  unfolding check_key is_expired
  check_key-Swept s key j now later deleted w le =
      elim (Bool-cases (due now (find key s.expire_dict))) [
        | inl x ↦
            let (w', gone, answer) = del_lem env s key j later w in
            rw x (
              w',
              gone ∙ ground (arith, str_eq_iff key j),
              counted (del env s key).1 _ _ (size-del s key w),
            )
        | inr x ↦ rw x (w, refl, refl)
      ]
    where
      counted :
          (b : Bool) (n m : ℕ)
          → n + (if b then 1 else 0) ≡ m
          → n + (if b then suc deleted else deleted) ≡ m + deleted
      counted true n m h = omega arith
      counted false n m h = omega arith

  check_keys-Swept :
      (keys : List Bytes) (look : ℕ → Look) (s : Storage) (j : Bytes) (later : ℤ) (deleted : ℕ)
      → WellFormed env s.stores
      → ((i : ℕ) → (look i).now ≤ℤ later)
      → Swept s deleted j later (check_keys env keys look s deleted)
  unfolding check_keys
  check_keys-Swept [] look s j later deleted w le = (w, refl, refl)
  check_keys-Swept (key ∷ keys) look s j later deleted w le = elim (Bool-cases (look 0).running) [
    | inl on ↦
        let (s', deleted') = check_key env s key (look 0).now deleted in
        let (w', same, counted) = check_key-Swept s key j (look 0).now later deleted w (le 0) in
        let (w'', same', counted') =
          check_keys-Swept keys (λ i. look (suc i)) s' j later deleted' w' (λ i. le (suc i)) in
        rw on (w'', same' ∙ same, counted' ∙ counted)
    | inr off ↦ rw off (w, refl, refl)
  ]

  candidates-Swept :
      (keys : List Bytes) (r : Round) (s : Storage) (j : Bytes) (later : ℤ) (deleted : ℕ)
      → WellFormed env s.stores
      → ((i : ℕ) → (r.look i).now ≤ℤ later)
      → let o = check_candidates env keys r s deleted in Swept s deleted j later (o.1, o.2)
  unfolding check_candidates
  candidates-Swept [] r s j later deleted w le = (w, refl, refl)
  candidates-Swept (key ∷ keys) r s j later deleted w le =
      check_keys-Swept (key ∷ keys) r.look s j later deleted w le

  round-Swept :
      (r : Round) (s : Storage) (j : Bytes) (later : ℤ) (deleted : ℕ)
      → WellFormed env s.stores
      → ((i : ℕ) → (r.look i).now ≤ℤ later)
      → let o = round env r s deleted in Swept s deleted j later (o.1, o.2)
  unfolding round
  round-Swept r s j later deleted w le =
      if_started r.may_start _
        (candidates-Swept (get_candidates s.expire_dict 20 r.draw) r s j later deleted w le)
    where
      if_started :
          (b : Bool) (o : Bool × Storage × ℕ)
          → Swept s deleted j later (o.1, o.2)
          → let o' = if b then o else (false, s, deleted) in Swept s deleted j later (o'.1, o'.2)
      if_started true o h = h
      if_started false o h = (w, refl, refl)

  -- A cycle of the checker on a well-formed store, in which no clock reading is after `later`: the store
  -- stays well formed, what is seen of any key at `later` is as before, and the number of deleted
  -- keys grows by that of the entries that the store has lost.
  pub cycle-Swept :
      (fuel : ℕ) (rounds : ℕ → Round) (s : Storage) (j : Bytes) (later : ℤ) (deleted : ℕ)
      → WellFormed env s.stores
      → ((k i : ℕ) → ((rounds k).look i).now ≤ℤ later)
      → Swept s deleted j later (cycle env fuel rounds s deleted)
  unfolding cycle
  cycle-Swept zero rounds s j later deleted w le = (w, refl, refl)
  cycle-Swept (suc fuel) rounds s j later deleted w le =
      let (again, s', deleted') = round env (rounds 0) s deleted in
      let (w', same, counted) = round-Swept (rounds 0) s j later deleted w (le 0) in
      elim (Bool-cases again) [
        | inl on ↦
            let (w'', same', counted') =
              cycle-Swept fuel (λ k. rounds (suc k)) s' j later deleted' w' (λ k. le (suc k)) in
            rw on (w'', same' ∙ same, counted' ∙ counted)
        | inr off ↦ rw off (w', same, counted)
      ]

  last_candidates :
      (keys : List Bytes) (r : Round) (s : Storage) (deleted : ℕ)
      → max_check_duration_ms ≤ r.elapsed
      → (check_candidates env keys r s deleted).0 ≡ false
  unfolding check_candidates
  last_candidates [] r s deleted h = refl
  last_candidates (key ∷ keys) r s deleted h = ground arith

  last_round :
      (r : Round) (s : Storage) (deleted : ℕ)
      → max_check_duration_ms ≤ r.elapsed
      → (round env r s deleted).0 ≡ false
  unfolding round
  last_round r s deleted h =
      if_started r.may_start _
        (last_candidates (get_candidates s.expire_dict 20 r.draw) r s deleted h)
    where
      if_started :
          (b : Bool) (o : Bool × Storage × ℕ)
          → o.0 ≡ false
          → (if b then o else (false, s, deleted)).0 ≡ false
      if_started true o h = h
      if_started false o h = refl

  -- The cycle ends: when the time budget is used up in round `k`, every fuel beyond `k` gives the
  -- same result.
  pub cycle_enough :
      (k fuel : ℕ) (rounds : ℕ → Round) (s : Storage) (deleted : ℕ)
      → max_check_duration_ms ≤ (rounds k).elapsed
      → k < fuel
      → cycle env fuel rounds s deleted ≡ cycle env (suc k) rounds s deleted
  unfolding cycle
  cycle_enough k zero rounds s deleted spent lt = absurd (omega arith)
  cycle_enough zero (suc fuel) rounds s deleted spent lt =
      rw (last_round (rounds 0) s deleted spent) refl
  cycle_enough (suc k) (suc fuel) rounds s deleted spent lt =
      let (again, s', deleted') = round env (rounds 0) s deleted in
      rw (cycle_enough k fuel (λ i. rounds (suc i)) s' deleted' spent (omega arith)) refl
