-- ===== src/Command/Hashes.antt =====
-- src/command/string_cmd.h: HSET, HGET, HDEL, HLEN and HGETALL.
use concurrent_cache.Prelude.{ℕ, zero, suc, List, [], ◌∷◌, if◌then◌else◌, ℤ, pos}
use concurrent_cache.Text.{Bytes}
use concurrent_cache.Datatype.Object.{CacheObject, hash}
use concurrent_cache.Datatype.Object.Hashes.{
  hash_set, hash_get, hash_del, hash_exists, hash_size, hash_items,
}
use concurrent_cache.Protocol.Resp.Encoder.{encode_integer, encode_array, encode_nil}
use concurrent_cache.Cache.Storage.{Setting, Storage}
use concurrent_cache.Cache.Storage.Writes.{mutate, StoreOp, noop, write, erase_key, allow, reject}
use concurrent_cache.Command.{wrong_arguments, bulk_or_nil, read_typed, changed_reply}
use concurrent_cache.Command.Lists.{count_reply}

abbrev pub putting_field : Bytes → Bytes → CacheObject → CacheObject × StoreOp × ℕ
putting_field field val o =
    ((hash_set o field val).0, write, (if hash_exists o field then 0 else 1))

-- The fields in turn, and how many were there.
unfoldable pub del_fields : List Bytes → CacheObject → CacheObject × ℕ
del_fields [] o = (o, 0)
del_fields (field ∷ fields) o =
    let (o', deleted) = hash_del o field in
    let (o'', n) = del_fields fields o' in (o'', (if deleted then suc n else n))

abbrev pub emptied : ℕ → ℕ → StoreOp
emptied zero size = noop
emptied (suc n) zero = erase_key
emptied (suc n) (suc size) = write

abbrev pub dropping_fields : List Bytes → CacheObject → CacheObject × StoreOp × ℕ
dropping_fields fields o = let (o', n) = del_fields fields o in (o', emptied n (hash_size o'), n)

unfoldable pub flat : List (Bytes × Bytes) → List Bytes
flat [] = []
flat ((field, val) ∷ items) = field ∷ val ∷ flat items

module _ (env : Setting) where
  unfoldable pub hset_command : Storage → List Bytes → ℤ → Storage × Bytes
  hset_command s (name ∷ key ∷ field ∷ val ∷ []) now =
      changed_reply count_reply (mutate env s key hash (putting_field field val) allow now)
  hset_command s args now = (s, wrong_arguments "hset")

  unfoldable pub hget_command : Storage → List Bytes → ℤ → Storage × Bytes
  unfolding read_typed
  hget_command s (name ∷ key ∷ field ∷ []) now =
      read_typed env hash encode_nil (λ o. bulk_or_nil (hash_get o field)) s key now
  hget_command s args now = (s, wrong_arguments "hget")

  unfoldable pub hdel_command : Storage → List Bytes → ℤ → Storage × Bytes
  hdel_command s (name ∷ key ∷ field ∷ fields) now =
      changed_reply count_reply
        (mutate env s key hash (dropping_fields (field ∷ fields)) reject now)
  hdel_command s args now = (s, wrong_arguments "hdel")

  unfoldable pub hlen_command : Storage → List Bytes → ℤ → Storage × Bytes
  unfolding read_typed
  hlen_command s (name ∷ key ∷ []) now =
      read_typed env hash (encode_integer (pos 0)) (λ o. count_reply (hash_size o)) s key now
  hlen_command s args now = (s, wrong_arguments "hlen")

  unfoldable pub hgetall_command : Storage → List Bytes → ℤ → Storage × Bytes
  unfolding read_typed flat
  hgetall_command s (name ∷ key ∷ []) now =
      read_typed env hash (encode_array []) (λ o. encode_array (flat (hash_items o))) s key now
  hgetall_command s args now = (s, wrong_arguments "hgetall")
