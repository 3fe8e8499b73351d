-- ===== src/Command/Restore.antt =====
-- src/command/restore_cmd.cpp: RESTORE, the receiving side of MIGRATE and of the snapshot of a replica.
use concurrent_cache.Prelude.{
  Bool, false, ◌&&◌, not, Option, none, some, List, [], ◌∷◌, if◌then◌else◌, ℤ, pos, ltb_ℤ,
  when_some,
}
use concurrent_cache.Text.{Bytes, codes, str_eq}
use concurrent_cache.Text.Stoll.{stoll}
use concurrent_cache.Datatype.Object.{CacheObject, empty_object}
use concurrent_cache.Datatype.Payload.{ScoreText, length_error, Outcome, deserialize}
use concurrent_cache.Protocol.Resp.Encoder.{encode_error, encode_simple_string}
use concurrent_cache.Cache.Storage.{Setting, Storage, exist}
use concurrent_cache.Cache.Storage.Writes.{set, set_with_expire}
use concurrent_cache.Command.{wrong_arguments}

abbrev pub wants_replace : List Bytes → Bool
wants_replace [] = false
wants_replace (word ∷ words) = str_eq word (codes "REPLACE")

module _ (env : Setting) (st : ScoreText) where
  unfoldable pub store_restored : Storage → Bytes → CacheObject → ℤ → ℤ → Storage
  store_restored s key obj ttl_ms now =
      if ltb_ℤ (pos 0) ttl_ms
      then set_with_expire env s key obj ttl_ms now
      else set env s key obj now

  -- No reply stands for the exception of a vector that is reserved beyond its largest size, which
  -- leaves the command.
  unfoldable pub restore_decoded : Storage → Bytes → Outcome → ℤ → ℤ → Storage × Option Bytes
  unfolding store_restored
  restore_decoded s key (obj, none) ttl_ms now =
      (store_restored s key obj ttl_ms now, some (encode_simple_string (codes "OK")))
  restore_decoded s key (obj, some length_error) ttl_ms now = (s, none)
  restore_decoded s key (obj, some error) ttl_ms now =
      (s, some (encode_error (codes "ERR Invalid or malformed serialized payload")))

  unfoldable pub restore_command : Storage → List Bytes → ℤ → Storage × Option Bytes
  unfolding restore_decoded
  restore_command s (name ∷ key ∷ ttl_str ∷ serialized ∷ words) now =
      when_some (stoll ttl_str) (s, some (encode_error (codes "ERR invalid TTL")))
        (λ (ttl_ms, behind).
          if not (wants_replace words) && exist env s key now
          then (s, some (encode_error (codes "BUSYKEY Target key name already exists")))
          else restore_decoded s key (deserialize st empty_object serialized) ttl_ms now)
  restore_command s args now = (s, some (wrong_arguments "restore"))
