-- ===== src/Cache/ExpireDict/Ttl.antt =====
-- What the expiry dictionary answers about a key after each update.
use concurrent_cache.Prelude.{
  ℕ, ◌+◌, ◌-◌, ◌^◌, ◌<◌, ◌≡◌, refl, ◌⊎◌, Bool, false, ◌||◌, leb_ℤ, none, [], ◌∷◌, arith,
  if◌then◌else◌, ℤ, pos, negsuc, ◌+ℤ◌, ◌-ℤ◌, ◌≤ℤ◌, ltb, leb, length,
}
use concurrent_cache.Text.{Bytes, str_eq, str_eq_iff, str_eq_refl}
use concurrent_cache.Table.{
  find, contains, find-insert_or_assign, contains-find, find-contains, IsDistinct, find-erase,
}
use concurrent_cache.Cache.ExpireDict.{
  ExpireMap, max_ms, expire_at, get_ttl, is_expired, persist, get_expire_time, delete_expired,
  remaining_of, time_or_never, due, drop_expired,
}
use concurrent_cache.Cache.ExpireDict

-- A time to live that began at `now` has run out at `later`, or the clock stands at the end of the
-- int64_t, whichever comes first.
abbrev pub is_over : ℤ → ℤ → ℤ → Bool
is_over now ttl later = leb_ℤ (now +ℤ ttl) later || leb_ℤ (pos (2 ^ 63 - 1)) later

pub expire_at-is_over :
    (now ttl later : ℤ) → leb_ℤ (expire_at now ttl) later ≡ is_over now ttl later
unfolding expire_at ◌+ℤ◌ ◌-ℤ◌
expire_at-is_over (pos a) (pos b) later = ground arith
expire_at-is_over (pos a) (negsuc b) later = ground arith
expire_at-is_over (negsuc a) (pos b) later = ground arith
expire_at-is_over (negsuc a) (negsuc b) later = ground arith

-- For a positive int64_t `ttl` and a time before the largest one, a new expiry lies in the future
-- and is at most the largest time; it is the exact sum, unless that leaves the int64_t.
pub expire_at_bounds :
    (now ttl : ℕ)
    → now < 2 ^ 63 - 1
    → 0 < ttl
    → ttl < 2 ^ 63
    → (pos (now + 1) ≤ℤ expire_at (pos now) (pos ttl))
      × (expire_at (pos now) (pos ttl) ≤ℤ max_ms)
      × ((expire_at (pos now) (pos ttl) ≡ pos (now + ttl)) ⊎ (2 ^ 63 - 1 < now + ttl))
unfolding expire_at ◌+ℤ◌ ◌-ℤ◌
expire_at_bounds now ttl h k l = ground arith

-- A key that gets a positive `ttl` at `now`, where the sum is below 2^63, reads at any later time
-- what is left of it while there is some, and -2 from then on, when it is expired; other keys read
-- as before.
pub get_ttl-set :
    (m : ExpireMap) (key j : Bytes) (now ttl elapsed : ℕ)
    → 0 < ttl
    → now + ttl < 2 ^ 63
    → let m' = ExpireDict.set m key (pos ttl) (pos now) in
      let later = pos (now + elapsed) in
      (get_ttl m' j later ≡ (
        if str_eq key j
        then (if ltb elapsed ttl then pos (ttl - elapsed) else negsuc 1)
        else get_ttl m j later))
      × (is_expired m' j later ≡ (if str_eq key j then leb ttl elapsed else is_expired m j later))
unfolding ExpireDict.set get_ttl is_expired expire_at ◌+ℤ◌ ◌-ℤ◌
get_ttl-set m key j now ttl elapsed h k =
    rw (find-insert_or_assign j key (expire_at (pos now) (pos ttl)) m) (ground arith)

-- The TTL and the expiry test agree: -2 is read for an expired key and for a key with no record,
-- and a positive time otherwise.
pub get_ttl-is_expired :
    (m : ExpireMap) (key : Bytes) (now : ℤ)
    → if is_expired m key now
      then get_ttl m key now ≡ negsuc 1
      else ((contains key m ≡ false) × (get_ttl m key now ≡ negsuc 1))
      ⊎ (pos 1 ≤ℤ get_ttl m key now)
unfolding get_ttl is_expired ◌-ℤ◌
get_ttl-is_expired m key now = ground (arith, find-contains key m)

-- PERSIST answers whether the key had a record; afterwards the key never expires, and the records of
-- other keys are as they were.
pub persist_lem :
    (m : ExpireMap) (key j : Bytes) (now : ℤ)
    → let r = persist m key in
      (r.1 ≡ contains key m)
      × (get_expire_time r.0 key ≡ negsuc 0)
      × (is_expired r.0 key now ≡ false)
      × (get_expire_time r.0 j ≡ (if str_eq key j then negsuc 0 else get_expire_time m j))
unfolding persist get_expire_time is_expired
persist_lem m key j now = ground (
  arith,
  str_eq_refl key,
  str_eq_iff key j,
  find-erase key key m,
  find-erase j key m,
  contains-find key m,
)

contains-drop_expired :
    (j : Bytes) (m : ExpireMap) (now : ℤ)
    → contains j m ≡ false
    → contains j (drop_expired m now).0 ≡ false
unfolding drop_expired contains
contains-drop_expired j [] now h = refl
contains-drop_expired j ((k, t) ∷ m) now h = ground (arith, contains-drop_expired j m now)

find-drop_expired :
    (j : Bytes) (m : ExpireMap) (now : ℤ)
    → IsDistinct m
    → find j (drop_expired m now).0 ≡ (if due now (find j m) then none else find j m)
unfolding drop_expired find
find-drop_expired j [] now d = refl
find-drop_expired j ((k, t) ∷ m) now d = ground (
  arith,
  str_eq_iff k j,
  contains-find k m d.0,
  contains-find k (drop_expired m now).0 (contains-drop_expired k m now d.0),
  find-drop_expired j m now d.1,
)

length-drop_expired :
    (m : ExpireMap) (now : ℤ) → length (drop_expired m now).0 + (drop_expired m now).1 ≡ length m
unfolding drop_expired
length-drop_expired [] now = refl
length-drop_expired ((k, t) ∷ m) now = ground (arith, length-drop_expired m now)

-- In a dictionary with distinct keys, the sweep removes exactly the expired records, and returns
-- how many it removed.
pub delete_expired_lem :
    (m : ExpireMap) (j : Bytes) (now : ℤ)
    → IsDistinct m
    → (find j (delete_expired m now).0 ≡ (if is_expired m j now then none else find j m))
      × (ExpireDict.size (delete_expired m now).0 + (delete_expired m now).1 ≡ ExpireDict.size m)
unfolding delete_expired is_expired ExpireDict.size
delete_expired_lem m j now d = (find-drop_expired j m now d, length-drop_expired m now)
