-- ===== src/Command/Lists.antt =====
-- src/command/string_cmd.h: LPUSH, RPUSH, LPOP, RPOP, LLEN and LRANGE.
use concurrent_cache.Prelude.{
  ℕ, Bool, true, false, Option, none, some, List, [], ◌∷◌, ◌==◌, if◌then◌else◌, ℤ, pos, when_some,
}
use concurrent_cache.Text.{Bytes}
use concurrent_cache.Base.IntParse.{parse_ll_strict}
use concurrent_cache.Datatype.Object.{CacheObject, list}
use concurrent_cache.Datatype.Object.Lists.{list_push, list_pop, list_size, list_range}
use concurrent_cache.Protocol.Resp.Encoder.{encode_integer, encode_array}
use concurrent_cache.Cache.Storage.{Setting, Storage}
use concurrent_cache.Cache.Storage.Writes.{mutate, StoreOp, noop, write, erase_key, allow, reject}
use concurrent_cache.Command.{
  wrong_arguments, not_integer_in_range, bulk_or_nil, read_typed, changed_reply,
}

unfoldable pub push_values : Bool → List Bytes → CacheObject → CacheObject
push_values front [] o = o
push_values front (v ∷ vs) o = push_values front vs (list_push o v front).0

abbrev pub pushing : Bool → List Bytes → CacheObject → CacheObject × StoreOp × ℕ
pushing front vs o = (push_values front vs o, write, list_size (push_values front vs o))

abbrev pub after_pop : CacheObject × Option Bytes → CacheObject × StoreOp × Option Bytes
after_pop (o, none) = (o, noop, none)
after_pop (o, some v) = (o, (if list_size o == 0 then erase_key else write), some v)

abbrev pub popping : Bool → CacheObject → CacheObject × StoreOp × Option Bytes
popping front o = after_pop (list_pop o front)

abbrev pub count_reply : ℕ → Bytes
count_reply n = encode_integer (pos n)

module _ (env : Setting) where
  unfoldable pub lpush_command : Storage → List Bytes → ℤ → Storage × Bytes
  lpush_command s (name ∷ key ∷ v ∷ vs) now =
      changed_reply count_reply (mutate env s key list (pushing true (v ∷ vs)) allow now)
  lpush_command s args now = (s, wrong_arguments "lpush")

  unfoldable pub rpush_command : Storage → List Bytes → ℤ → Storage × Bytes
  rpush_command s (name ∷ key ∷ v ∷ vs) now =
      changed_reply count_reply (mutate env s key list (pushing false (v ∷ vs)) allow now)
  rpush_command s args now = (s, wrong_arguments "rpush")

  unfoldable pub lpop_command : Storage → List Bytes → ℤ → Storage × Bytes
  lpop_command s (name ∷ key ∷ []) now =
      changed_reply bulk_or_nil (mutate env s key list (popping true) reject now)
  lpop_command s args now = (s, wrong_arguments "lpop")

  unfoldable pub rpop_command : Storage → List Bytes → ℤ → Storage × Bytes
  rpop_command s (name ∷ key ∷ []) now =
      changed_reply bulk_or_nil (mutate env s key list (popping false) reject now)
  rpop_command s args now = (s, wrong_arguments "rpop")

  unfoldable pub llen_command : Storage → List Bytes → ℤ → Storage × Bytes
  unfolding read_typed
  llen_command s (name ∷ key ∷ []) now =
      read_typed env list (encode_integer (pos 0)) (λ o. count_reply (list_size o)) s key now
  llen_command s args now = (s, wrong_arguments "llen")

  unfoldable pub lrange_command : Storage → List Bytes → ℤ → Storage × Bytes
  unfolding read_typed
  lrange_command s (name ∷ key ∷ from ∷ to ∷ []) now =
      when_some (parse_ll_strict from) (s, not_integer_in_range)
        (λ start.
          when_some (parse_ll_strict to) (s, not_integer_in_range)
            (λ stop.
              read_typed env list (encode_array []) (λ o. encode_array (list_range o start stop)) s
                key now))
  lrange_command s args now = (s, wrong_arguments "lrange")
