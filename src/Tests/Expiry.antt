-- ===== src/Tests/Expiry.antt =====
-- src/cache/expire_dict.cpp at concrete inputs.
use concurrent_cache.Prelude.{ℕ, ◌+◌, ◌*◌, ◌^◌, true, ◌≡◌, refl, [], ◌∷◌, arith, pos, negsuc, ◌≤ℤ◌}
use concurrent_cache.Text.{codes, str_eq}
use concurrent_cache.Table.{contains, IsDistinct}
use concurrent_cache.Cache.ExpireDict.{ExpireMap, delete_expired, stats}
use concurrent_cache.Cache.ExpireDict.Stats.{stats_overflow}
use concurrent_cache.Cache.ExpirationChecker.{Round, cycle}
use concurrent_cache.Cache.ExpirationChecker.Cycle.{Swept, cycle-Swept, cycle_enough}
use concurrent_cache.Tests.Stores.{machine, key, stale, stale-WellFormed}

-- Two keys, of which one has expired at 200.
abbrev timers : ExpireMap
timers = (codes "a", pos 150) ∷ (codes "b", pos 400) ∷ []

timers-IsDistinct : IsDistinct timers
unfolding contains str_eq
timers-IsDistinct = (refl, (refl, tt))

sweep_run : (delete_expired timers (pos 200)).1 ≡ 1
unfolding delete_expired
sweep_run = refl

stats_overflow_example :
    (stats ((codes "a", pos (100 + 2 ^ 62)) ∷ (codes "b", pos (100 + 2 ^ 62)) ∷ []) (pos 100)).1
    ≤ℤ negsuc 0
stats_overflow_example =
    stats_overflow (codes "a") (codes "b") 100 (2 ^ 62) (2 ^ 62) (omega arith) (omega arith)
      (omega arith) (omega arith)

-- Rounds that all look at 120 and take ten milliseconds each.
abbrev rounds : ℕ → Round
rounds k = record {
  may_start = true;
  draw = λ i. i;
  look = λ i. record { running = true; now = pos 120 };
  elapsed = 10 * (k + 1);
}

cycle-Swept_example : Swept machine stale 0 key (pos 300) (cycle machine 5 rounds stale 0)
cycle-Swept_example =
    cycle-Swept machine 5 rounds stale key (pos 300) 0 stale-WellFormed (λ k i. omega arith)

cycle_enough_example : cycle machine 5 rounds stale 0 ≡ cycle machine 3 rounds stale 0
cycle_enough_example = cycle_enough machine 2 5 rounds stale 0 (omega arith) (omega arith)
