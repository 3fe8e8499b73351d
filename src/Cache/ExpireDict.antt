-- ===== src/Cache/ExpireDict.antt =====
-- src/cache/expire_dict.h and expire_dict.cpp: the expiry times of keys, in milliseconds. The clock is
-- an argument, read once in a call; the assertions are off, as in a release build.
pub mod Ttl
pub mod Sampling
pub mod Stats
use concurrent_cache.Prelude.{
  ℕ, zero, suc, ◌+◌, ◌-◌, ◌*◌, ◌/◌, ◌%◌, ◌^◌, ◌≡◌, Bool, true, false, Option, none, some, List, [],
  ◌∷◌, if◌then◌else◌, length, ltb, leb, ◌==◌, get_elem?, take, ℤ, pos, negsuc, ◌+ℤ◌, ◌-ℤ◌, ltb_ℤ,
  leb_ℤ, pos_part,
}
use Prim.Native.Nat.{min, max}
use concurrent_cache.Text.{Bytes}
use concurrent_cache.Table.{Table, find, contains, insert_or_assign, erase, keys}

-- expire_map_
abbrev pub ExpireMap : Type 0
ExpireMap = Table ℤ

-- numeric_limits<int64_t>::max()
abbrev pub max_ms : ℤ
max_ms = pos (2 ^ 63 - 1)

-- The saturating sum of `set`, `set_with_expire` and `set_conditional`.
unfoldable pub expire_at : ℤ → ℤ → ℤ
expire_at now ttl = if ltb_ℤ (max_ms -ℤ now) ttl then max_ms else now +ℤ ttl

unfoldable pub set : ExpireMap → Bytes → ℤ → ℤ → ExpireMap
set m key expire_ms now = insert_or_assign key (expire_at now expire_ms) m

unfoldable pub set_expire_time : ExpireMap → Bytes → ℤ → ExpireMap
set_expire_time m key expire_time_ms = insert_or_assign key expire_time_ms m

remaining_of : ℤ → Option ℤ → ℤ
remaining_of now none = negsuc 1
remaining_of now (some t) =
    let remaining = t -ℤ now in if leb_ℤ remaining (pos 0) then negsuc 1 else remaining

unfoldable pub get_ttl : ExpireMap → Bytes → ℤ → ℤ
unfolding remaining_of
get_ttl m key now = remaining_of now (find key m)

-- -1 where there is no expiry.
abbrev pub time_or_never : Option ℤ → ℤ
time_or_never none = negsuc 0
time_or_never (some t) = t

unfoldable pub get_expire_time : ExpireMap → Bytes → ℤ
get_expire_time m key = time_or_never (find key m)

unfoldable pub persist : ExpireMap → Bytes → ExpireMap × Bool
persist m key = if contains key m then (erase key m, true) else (m, false)

unfoldable pub remove : ExpireMap → Bytes → ExpireMap
remove m key = erase key m

abbrev pub due : ℤ → Option ℤ → Bool
due now none = false
due now (some t) = leb_ℤ t now

unfoldable pub is_expired : ExpireMap → Bytes → ℤ → Bool
is_expired m key now = due now (find key m)

unfoldable pub has_record : ExpireMap → Bytes → Bool
has_record m key = contains key m

abbrev key_at : List Bytes → ℕ → List Bytes
key_at ks i = elim (get_elem? ks i) [ none ↦ [] | some k ↦ k ∷ [] ]

-- The sampling loop: the `k`-th draw of the generator, never before the last position.
sample : List Bytes → (ℕ → ℕ) → ℕ → ℕ → ℕ → List Bytes
sample ks draw zero k last = []
sample ks draw (suc left) k last =
    let target = max (draw k) last in
    elim (get_elem? ks target) [ none ↦ [] | some key ↦ key ∷ sample ks draw left (suc k) target ]

-- `draw` stands for the values of `dist(rng)`.
unfoldable pub get_candidates : ExpireMap → ℕ → (ℕ → ℕ) → List Bytes
unfolding sample
get_candidates m n draw =
    let total = length m in
    let want = min n total in
    if total == 0
    then []
    else if leb total (want * 4)
    then take want (keys m)
    else sample (keys m) draw want 0 0

drop_expired : ExpireMap → ℤ → ExpireMap × ℕ
drop_expired [] now = ([], 0)
drop_expired ((k, t) ∷ m) now =
    let (rest, deleted) = drop_expired m now in
    if leb_ℤ t now then (rest, suc deleted) else ((k, t) ∷ rest, deleted)

unfoldable pub delete_expired : ExpireMap → ℤ → ExpireMap × ℕ
unfolding drop_expired
delete_expired m now = drop_expired m now

unfoldable pub size : ExpireMap → ℕ
size m = length m

-- The live entries, and the sum of what is left of them.
live_sum : ExpireMap → ℤ → ℕ × ℕ
live_sum [] now = (0, 0)
live_sum ((k, t) ∷ m) now =
    let (live, sum) = live_sum m now in
    if ltb_ℤ now t then (suc live, pos_part (t -ℤ now) + sum) else (live, sum)

-- An int64_t that has wrapped around.
abbrev wrap_int64 : ℕ → ℤ
wrap_int64 n = let w = n % 2 ^ 64 in if ltb w (2 ^ 63) then pos w else negsuc (2 ^ 64 - 1 - w)

-- `/` of C++, towards zero.
abbrev truncated_div : ℤ → ℕ → ℤ
truncated_div (pos n) d = pos (n / d)
truncated_div (negsuc n) d = pos 0 -ℤ pos (suc n / d)

-- live_count and avg_ttl_ms.
unfoldable pub stats : ExpireMap → ℤ → ℕ × ℤ
unfolding live_sum
stats m now =
    let (live, sum) = live_sum m now in
    (live, if ltb 0 live then truncated_div (wrap_int64 sum) live else pos 0)

unfoldable pub clear_all : ExpireMap → ExpireMap
clear_all m = []
