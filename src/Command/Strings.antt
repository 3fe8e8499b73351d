-- ===== src/Command/Strings.antt =====
-- src/command/string_cmd.h: PING, GET, INCR, DECR, INCRBY, DECRBY, DEL, EXISTS, DBSIZE, FLUSHDB and DEBUG.
use concurrent_cache.Prelude.{
  ℕ, suc, Option, none, some, List, [], ◌∷◌, ◌++◌, if◌then◌else◌, ℤ, pos, negsuc, eq_ℤ, ◌-ℤ◌,
  when_some,
}
use concurrent_cache.Text.{Bytes, codes, str_eq}
use concurrent_cache.Base.IntParse.{parse_ll_strict}
use concurrent_cache.Datatype.Object.{
  CacheObject, ObjectType, string, list, hash, set, zset, get_string,
}
use concurrent_cache.Protocol.Resp.Encoder.{
  encode_simple_string, encode_error, encode_integer, encode_bulk_string, encode_nil,
}
use concurrent_cache.Cache.Storage.{Setting, Storage, get, del, exist, size, clear}
use concurrent_cache.Cache.Storage.Writes.{incrby, int64_min}
use concurrent_cache.Command.{wrong_arguments, wrong_type, not_integer_in_range}

unfoldable pub ping_command : List Bytes → Bytes
ping_command [] = encode_simple_string (codes "PONG")
ping_command (name ∷ []) = encode_simple_string (codes "PONG")
ping_command (name ∷ message ∷ rest) = encode_bulk_string message

abbrev pub get_reply : Option CacheObject → Bytes
get_reply none = encode_nil
get_reply (some v) = when_some (get_string v) wrong_type encode_bulk_string

-- Why an addition was refused, from the value that is there now.
abbrev pub refusal : Option CacheObject → Bytes
refusal none = wrong_type
refusal (some v) = when_some (get_string v) wrong_type (λ text.
    when_some (parse_ll_strict text) (encode_error (codes "ERR value is not an integer"))
      (λ prev. encode_error (codes "ERR increment or decrement would overflow")))

module _ (env : Setting) where
  unfoldable pub get_command : Storage → List Bytes → ℤ → Storage × Bytes
  get_command s (name ∷ key ∷ []) now = (let (s', seen) = get env s key now in (s', get_reply seen))
  get_command s args now = (s, wrong_arguments "get")

  unfoldable pub added_reply : Bytes → ℤ → Storage × Option ℤ → Storage × Bytes
  added_reply key now (s, some v) = (s, encode_integer v)
  added_reply key now (s, none) = (let (s', seen) = get env s key now in (s', refusal seen))

  unfoldable pub apply_incrby : Storage → Bytes → ℤ → ℤ → Storage × Bytes
  unfolding added_reply
  apply_incrby s key delta now = added_reply key now (incrby env s key delta now)

  unfoldable pub incr_command : Storage → List Bytes → ℤ → Storage × Bytes
  incr_command s (name ∷ key ∷ []) now = apply_incrby s key (pos 1) now
  incr_command s args now = (s, wrong_arguments "incr")

  unfoldable pub decr_command : Storage → List Bytes → ℤ → Storage × Bytes
  decr_command s (name ∷ key ∷ []) now = apply_incrby s key (negsuc 0) now
  decr_command s args now = (s, wrong_arguments "decr")

  unfoldable pub incrby_command : Storage → List Bytes → ℤ → Storage × Bytes
  incrby_command s (name ∷ key ∷ amount ∷ []) now =
      when_some (parse_ll_strict amount) (s, not_integer_in_range)
        (λ delta. apply_incrby s key delta now)
  incrby_command s args now = (s, wrong_arguments "incrby")

  -- -delta; the smallest int64_t has none.
  unfoldable pub decrby_command : Storage → List Bytes → ℤ → Storage × Bytes
  decrby_command s (name ∷ key ∷ amount ∷ []) now =
      when_some (parse_ll_strict amount) (s, not_integer_in_range)
        (λ delta.
          if eq_ℤ delta (int64_min env)
          then (s, not_integer_in_range)
          else apply_incrby s key (pos 0 -ℤ delta) now)
  decrby_command s args now = (s, wrong_arguments "decrby")

  -- The keys in turn, and how many were there.
  unfoldable pub del_all : Storage → List Bytes → Storage × ℕ
  del_all s [] = (s, 0)
  del_all s (key ∷ keys) =
      let (s', erased) = del env s key in
      let (s'', n) = del_all s' keys in (s'', (if erased then suc n else n))

  unfoldable pub del_command : Storage → List Bytes → Storage × Bytes
  unfolding del_all
  del_command s (name ∷ key ∷ keys) =
      (let (s', n) = del_all s (key ∷ keys) in (s', encode_integer (pos n)))
  del_command s args = (s, wrong_arguments "del")

  unfoldable pub exists_command : Storage → List Bytes → ℤ → Storage × Bytes
  exists_command s (name ∷ key ∷ []) now =
      (s, encode_integer (if exist env s key now then pos 1 else pos 0))
  exists_command s args now = (s, wrong_arguments "exists")

  abbrev pub type_name : ObjectType → Bytes
  type_name string = codes "string"
  type_name list = codes "list"
  type_name hash = codes "hash"
  type_name set = codes "set"
  type_name zset = codes "zset"

  abbrev pub object_info : Option CacheObject → Bytes
  object_info none = encode_error (codes "ERR no such key")
  object_info (some v) = encode_bulk_string (codes "Type: " ++ type_name v.type)

  unfoldable pub debug_object : Storage → List Bytes → ℤ → Storage × Bytes
  debug_object s [] now =
      (s, encode_error (codes "ERR wrong number of arguments for 'debug object'"))
  debug_object s (key ∷ rest) now = (let (s', seen) = get env s key now in (s', object_info seen))

  unfoldable pub debug_command : Storage → List Bytes → ℤ → Storage × Bytes
  unfolding debug_object
  debug_command s (name ∷ sub ∷ rest) now =
      if str_eq sub (codes "sleep")
      then (s, encode_error (codes "ERR DEBUG SLEEP is not supported"))
      else if str_eq sub (codes "object")
      then debug_object s rest now
      else (s, encode_error (codes "ERR Unknown DEBUG subcommand"))
  debug_command s args now = (s, wrong_arguments "debug")

unfoldable pub dbsize_command : Storage → List Bytes → Storage × Bytes
dbsize_command s args = (s, encode_integer (pos (size s)))

unfoldable pub flushdb_command : Storage → List Bytes → Storage × Bytes
flushdb_command s args = (clear s, encode_simple_string (codes "OK"))
