-- ===== src/Cache/ExpirationChecker.antt =====
-- src/cache/expiration_checker.cpp: the loop of ExpirationChecker::run. The threads, the pause
-- between two cycles and the log are left out; what the loop reads from outside is in `Look` and `Round`.
pub mod Cycle
use concurrent_cache.Prelude.{
  ℕ, zero, suc, ◌+◌, Bool, true, false, List, [], ◌∷◌, leb, not, if◌then◌else◌, ℤ,
}
use concurrent_cache.Text.{Bytes}
use concurrent_cache.Cache.ExpireDict.{get_candidates, is_expired}
use concurrent_cache.Cache.Storage.{Setting, Storage, del}

-- What the loop sees before one key: whether it may go on, and the clock.
pub record Look : Type 0 where
  pub running : Bool
  pub now : ℤ

-- What one round of the loop sees: whether it may start, the sampler's draws, a look for every key,
-- and the milliseconds since the cycle began.
pub record Round : Type 0 where
  pub may_start : Bool
  pub draw : ℕ → ℕ
  pub look : ℕ → Look
  pub elapsed : ℕ

abbrev pub max_check_duration_ms : ℕ
max_check_duration_ms = 25

-- Checks of one key and of the candidates of a round; the number counts the deleted keys.
module _ (env : Setting) where
  unfoldable pub check_key : Storage → Bytes → ℤ → ℕ → Storage × ℕ
  check_key s key now deleted =
      if is_expired s.expire_dict key now
      then (let (s', gone) = del env s key in (s', (if gone then suc deleted else deleted)))
      else (s, deleted)

  unfoldable pub check_keys : List Bytes → (ℕ → Look) → Storage → ℕ → Storage × ℕ
  unfolding check_key
  check_keys [] look s deleted = (s, deleted)
  check_keys (key ∷ keys) look s deleted =
      let (s', deleted') = check_key s key (look 0).now deleted in
      let rest = check_keys keys (λ i. look (suc i)) s' deleted' in
      if (look 0).running then rest else (s, deleted)

  -- One round: whether another one follows, the store, and the deleted keys.
  unfoldable pub check_candidates : List Bytes → Round → Storage → ℕ → Bool × Storage × ℕ
  unfolding check_keys
  check_candidates [] r s deleted = (false, s, deleted)
  check_candidates (key ∷ keys) r s deleted =
      let (s', deleted') = check_keys (key ∷ keys) r.look s deleted in
      (not (leb max_check_duration_ms r.elapsed), s', deleted')

  unfoldable pub round : Round → Storage → ℕ → Bool × Storage × ℕ
  unfolding check_candidates
  round r s deleted =
      if r.may_start
      then check_candidates (get_candidates s.expire_dict 20 r.draw) r s deleted
      else (false, s, deleted)

  -- The cycle, of at most `fuel` rounds.
  unfoldable pub cycle : ℕ → (ℕ → Round) → Storage → ℕ → Storage × ℕ
  unfolding round
  cycle zero rounds s deleted = (s, deleted)
  cycle (suc fuel) rounds s deleted =
      let (again, s', deleted') = round (rounds 0) s deleted in
      let rest = cycle fuel (λ i. rounds (suc i)) s' deleted' in
      if again then rest else (s', deleted')
