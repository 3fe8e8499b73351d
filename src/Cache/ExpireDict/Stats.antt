-- ===== src/Cache/ExpireDict/Stats.antt =====
-- The numbers of INFO keyspace.
use concurrent_cache.Prelude.{
  ℕ, ◌+◌, ◌^◌, ◌<◌, ◌≤◌, ◌≡◌, refl, [], ◌∷◌, arith, ℤ, pos, negsuc, ◌-ℤ◌, ◌≤ℤ◌, length,
}
use concurrent_cache.Text.{Bytes}
use concurrent_cache.Cache.ExpireDict.{
  ExpireMap, stats, live_sum, delete_expired, drop_expired, max_ms,
}
use concurrent_cache.Cache.ExpireDict

live_sum-drop_expired :
    (m : ExpireMap) (now : ℤ) → (live_sum m now).0 ≡ length (drop_expired m now).0
unfolding live_sum drop_expired
live_sum-drop_expired [] now = refl
live_sum-drop_expired ((k, t) ∷ m) now = ground (arith, live_sum-drop_expired m now)

-- The count of live keys is the number of records that the sweep would leave.
pub stats-delete_expired :
    (m : ExpireMap) (now : ℤ) → (stats m now).0 ≡ ExpireDict.size (delete_expired m now).0
unfolding stats delete_expired ExpireDict.size
stats-delete_expired m now = live_sum-drop_expired m now

-- In a dictionary of two keys with 2^62 milliseconds or more left each, and expiry times below
-- 2^63, the sum leaves the int64_t, and the mean TTL is reported negative.
pub stats_overflow :
    (j k : Bytes) (now a b : ℕ)
    → 2 ^ 62 ≤ a
    → 2 ^ 62 ≤ b
    → now + a < 2 ^ 63
    → now + b < 2 ^ 63
    → (stats ((j, pos (now + a)) ∷ (k, pos (now + b)) ∷ []) (pos now)).1 ≤ℤ negsuc 0
unfolding stats live_sum ◌-ℤ◌
stats_overflow j k now a b h l p q = ground arith
