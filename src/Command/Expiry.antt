-- ===== src/Command/Expiry.antt =====
-- src/command/expire_cmd.h: EXPIRE, TTL, PTTL, PERSIST and SETEX.
use concurrent_cache.Prelude.{
  ◌/◌, Bool, true, false, not, List, [], ◌∷◌, if◌then◌else◌, ℤ, pos, negsuc, leb_ℤ, ltb_ℤ,
  when_some,
}
use concurrent_cache.Text.{Bytes, codes}
use concurrent_cache.Text.Stoll.{stoll}
use concurrent_cache.Datatype.Object.{of_string}
use concurrent_cache.Protocol.Resp.Encoder.{encode_error, encode_integer, encode_ok}
use concurrent_cache.Cache.ExpireDict.{max_ms, get_ttl, persist, has_record}
use concurrent_cache.Cache.ExpireDict
use concurrent_cache.Cache.Storage.{Setting, Storage, exist, del, increment_dirty}
use concurrent_cache.Cache.Storage.Writes.{set_with_expire}
use concurrent_cache.Command.{wrong_arguments}
use concurrent_cache.Command.SetCommand.{max_seconds, thousandfold}

-- Saturating, for the seconds that the commands pass.
unfoldable pub ttl_seconds_to_ms : ℤ → ℤ
ttl_seconds_to_ms seconds = if ltb_ℤ max_seconds seconds then max_ms else thousandfold seconds

abbrev pub invalid_key : Bytes
invalid_key = encode_error (codes "ERR invalid key")

abbrev pub not_integer : Bytes
not_integer = encode_error (codes "ERR value is not an integer")

abbrev pub yes_no : Bool → Bytes
yes_no b = encode_integer (if b then pos 1 else pos 0)

-- ms / 1000, for a positive time.
abbrev pub whole_seconds : ℤ → ℤ
whole_seconds (pos ms) = pos (ms / 1000)
whole_seconds (negsuc n) = negsuc n

module _ (env : Setting) where
  unfoldable pub expire_in : Storage → Bytes → ℤ → ℤ → Storage × Bytes
  unfolding increment_dirty
  expire_in s key seconds now =
      if not (exist env s key now)
      then (s, yes_no false)
      else if leb_ℤ seconds (pos 0)
      then ((del env s key).0, yes_no true)
      else (
        increment_dirty (record s {
          expire_dict = ExpireDict.set s.expire_dict key (ttl_seconds_to_ms seconds) now;
        }),
        yes_no true,
      )

  -- What follows a number in the text is not looked at.
  unfoldable pub expire_command : Storage → List Bytes → ℤ → Storage × Bytes
  unfolding expire_in
  expire_command s (name ∷ [] ∷ amount ∷ []) now = (s, invalid_key)
  expire_command s (name ∷ (c ∷ key) ∷ amount ∷ []) now =
      when_some (stoll amount) (s, not_integer) (λ read. expire_in s (c ∷ key) read.0 now)
  expire_command s args now = (s, wrong_arguments "expire")

  -- What TTL and PTTL read of a key, in milliseconds.
  unfoldable pub ttl_of : Storage → Bytes → ℤ → ℤ
  ttl_of s key now =
      if not (exist env s key now)
      then negsuc 1
      else if not (has_record s.expire_dict key)
      then negsuc 0
      else (let ttl_ms = get_ttl s.expire_dict key now in
          if leb_ℤ ttl_ms (pos 0) then negsuc 1 else ttl_ms)

  unfoldable pub ttl_command : Storage → List Bytes → ℤ → Storage × Bytes
  unfolding ttl_of
  ttl_command s (name ∷ [] ∷ []) now = (s, invalid_key)
  ttl_command s (name ∷ (c ∷ key) ∷ []) now =
      (s, encode_integer (whole_seconds (ttl_of s (c ∷ key) now)))
  ttl_command s args now = (s, wrong_arguments "ttl")

  unfoldable pub pttl_command : Storage → List Bytes → ℤ → Storage × Bytes
  unfolding ttl_of
  pttl_command s (name ∷ [] ∷ []) now = (s, invalid_key)
  pttl_command s (name ∷ (c ∷ key) ∷ []) now = (s, encode_integer (ttl_of s (c ∷ key) now))
  pttl_command s args now = (s, wrong_arguments "pttl")

  abbrev pub persisted : Storage → ExpireDict.ExpireMap × Bool → Storage × Bytes
  persisted s (m, done) =
      let s' = record s { expire_dict = m } in
      ((if done then increment_dirty s' else s'), yes_no done)

  unfoldable pub persist_command : Storage → List Bytes → ℤ → Storage × Bytes
  unfolding increment_dirty
  persist_command s (name ∷ [] ∷ []) now = (s, invalid_key)
  persist_command s (name ∷ (c ∷ key) ∷ []) now =
      if not (exist env s (c ∷ key) now)
      then (s, yes_no false)
      else persisted s (persist s.expire_dict (c ∷ key))
  persist_command s args now = (s, wrong_arguments "persist")

  unfoldable pub setex_parsed : Storage → Bytes → ℤ → Bytes → ℤ → Storage × Bytes
  setex_parsed s key seconds val now =
      if leb_ℤ seconds (pos 0)
      then (s, encode_error (codes "ERR invalid expire time"))
      else (set_with_expire env s key (of_string val) (ttl_seconds_to_ms seconds) now, encode_ok)

  unfoldable pub setex_command : Storage → List Bytes → ℤ → Storage × Bytes
  unfolding setex_parsed
  setex_command s (name ∷ [] ∷ amount ∷ val ∷ []) now = (s, invalid_key)
  setex_command s (name ∷ (c ∷ key) ∷ amount ∷ val ∷ []) now =
      when_some (stoll amount) (s, not_integer) (λ read. setex_parsed s (c ∷ key) read.0 val now)
  setex_command s args now = (s, wrong_arguments "setex")
