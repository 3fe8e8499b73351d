-- ===== src/Command/Timed.antt =====
-- EXPIRE, and what PTTL reads afterwards.
use concurrent_cache.Prelude.{
  ℕ, ◌+◌, ◌-◌, ◌*◌, ◌/◌, ◌^◌, ◌<◌, ◌≤◌, ◌≡◌, refl, ap, true, not, ltb, leb, some, [], ◌∷◌, arith,
  if◌then◌else◌, pos, negsuc, Bool-cases, inl, inr,
}
use concurrent_cache.Text.{Bytes, str_eq_refl}
use concurrent_cache.Text.Stoll.{stoll}
use concurrent_cache.Table.{contains, contains-insert_or_assign}
use concurrent_cache.Protocol.Resp.Encoder.{encode_integer}
use concurrent_cache.Cache.ExpireDict.{ExpireMap, get_ttl, is_expired, has_record, max_ms}
use concurrent_cache.Cache.ExpireDict
use concurrent_cache.Cache.ExpireDict.Ttl.{get_ttl-set}
use concurrent_cache.Cache.Storage.{
  Setting, Storage, exist, increment_dirty, shard, get_shard_index,
}
use concurrent_cache.Command.Expiry.{
  expire_command, expire_in, pttl_command, ttl_of, ttl_seconds_to_ms, yes_no,
}

in_range :
    (secs : ℕ) → secs ≤ (2 ^ 63 - 1) / 1000 → ttl_seconds_to_ms (pos secs) ≡ pos (secs * 1000)
unfolding ttl_seconds_to_ms
in_range secs h = ground arith

module _ (env : Setting) (s : Storage) (name reader : Bytes) (c : ℕ) (key amount behind : Bytes)
    (secs now elapsed : ℕ) (read : stoll amount ≡ some (pos secs, behind)) (some_time : 0 < secs)
    (few : secs ≤ (2 ^ 63 - 1) / 1000) (fits : now + secs * 1000 < 2 ^ 63)
    (there : exist env s (c ∷ key) (pos now) ≡ true) where
  -- The store with the new record.
  abbrev recorded : Storage
  recorded = increment_dirty (record s {
    expire_dict = ExpireDict.set s.expire_dict (c ∷ key) (pos (secs * 1000)) (pos now);
  })

  expire_command-recorded :
      expire_command env s (name ∷ (c ∷ key) ∷ amount ∷ []) (pos now) ≡ (recorded, yes_no true)
  unfolding expire_command expire_in
  expire_command-recorded = rw (read, there, in_range secs few) (ground arith)

  contained : contains (c ∷ key) (shard s (get_shard_index env (c ∷ key))) ≡ true
  unfolding exist
  contained = ground (arith, there)

  after :
      (get_ttl recorded.expire_dict (c ∷ key) (pos (now + elapsed))
        ≡ (if ltb elapsed (secs * 1000) then pos (secs * 1000 - elapsed) else negsuc 1))
      × (is_expired recorded.expire_dict (c ∷ key) (pos (now + elapsed))
          ≡ leb (secs * 1000) elapsed)
  unfolding increment_dirty
  after =
      rw (str_eq_refl (c ∷ key)) at
        (get_ttl-set s.expire_dict (c ∷ key) (c ∷ key) now (secs * 1000) elapsed (omega arith) fits)

  still_there : exist env recorded (c ∷ key) (pos (now + elapsed)) ≡ not (leb (secs * 1000) elapsed)
  unfolding exist increment_dirty
  still_there = rw (contained, after.1) refl

  has_one : has_record recorded.expire_dict (c ∷ key) ≡ true
  unfolding has_record increment_dirty ExpireDict.set
  has_one =
      rw
        (
          contains-insert_or_assign (c ∷ key) (c ∷ key)
              (ExpireDict.expire_at (pos now) (pos (secs * 1000))) s.expire_dict,
          str_eq_refl (c ∷ key),
        )
        refl

  left :
      ttl_of env recorded (c ∷ key) (pos (now + elapsed))
      ≡ (if ltb elapsed (secs * 1000) then pos (secs * 1000 - elapsed) else negsuc 1)
  unfolding ttl_of
  left = elim (Bool-cases (leb (secs * 1000) elapsed)) [
    | inl over ↦ rw (still_there, over) (ground arith)
    | inr on ↦ rw (still_there, on, has_one, after.0) (ground arith)
  ]

  -- EXPIRE on a key that exists, with a text that begins with a positive number of seconds of which the
  -- milliseconds and the time of expiry fit, whatever stands behind the number: the reply is 1, and at
  -- any later time PTTL reads the milliseconds that are left, or -2 when there are none.
  pub expire_command-pttl_command :
      let (s', reply) = expire_command env s (name ∷ (c ∷ key) ∷ amount ∷ []) (pos now) in
      (reply ≡ encode_integer (pos 1))
      × ((pttl_command env s' (reader ∷ (c ∷ key) ∷ []) (pos (now + elapsed))).1
          ≡ encode_integer
              (if ltb elapsed (secs * 1000) then pos (secs * 1000 - elapsed) else negsuc 1))
  unfolding pttl_command
  expire_command-pttl_command = rw expire_command-recorded (refl, ap encode_integer left)
