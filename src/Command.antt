-- ===== src/Command.antt =====
-- src/command: the commands. A command takes the store, its arguments with the name first, and the
-- time, and returns the store and the reply. The name is always there: the caller looked it up.
pub mod Strings
pub mod SetCommand
pub mod SetWords
pub mod Restore
pub mod Expiry
pub mod Lists
pub mod Hashes
pub mod Sets
pub mod SortedSets
pub mod Visible
pub mod Timed
use concurrent_cache.Prelude.{
  ℕ, Bool, true, false, Option, none, some, List, [], ◌∷◌, ◌++◌, if◌then◌else◌, ℤ, pos, negsuc,
}
use Prim.Native.String.{String}
use concurrent_cache.Text.{Bytes, codes}
use concurrent_cache.Datatype.Object.{CacheObject, ObjectType, is_type}
use concurrent_cache.Protocol.Resp.Encoder.{
  encode_error, encode_integer, encode_bulk_string, encode_nil, encode_array,
}
use concurrent_cache.Cache.Storage.{Setting, Storage, get}

abbrev pub wrong_arguments : String → Bytes
wrong_arguments name =
    encode_error (codes "ERR wrong number of arguments for '" ++ codes name ++ codes "' command")

abbrev pub wrong_type : Bytes
wrong_type =
    encode_error (codes "WRONGTYPE Operation against a key holding the wrong kind of value")

abbrev pub not_integer_in_range : Bytes
not_integer_in_range = encode_error (codes "ERR value is not an integer or out of range")

abbrev pub bulk_or_nil : Option Bytes → Bytes
bulk_or_nil none = encode_nil
bulk_or_nil (some v) = encode_bulk_string v

-- A command that only reads a container: the reply for a missing key, and what is made of one of the
-- type that it wants.
abbrev pub typed_reply : ObjectType → Bytes → (CacheObject → Bytes) → Option CacheObject → Bytes
typed_reply want absent reply none = absent
typed_reply want absent reply (some v) = if is_type v.type want then reply v else wrong_type

module _ (env : Setting) where
  unfoldable pub read_typed :
      ObjectType → Bytes → (CacheObject → Bytes) → Storage → Bytes → ℤ → Storage × Bytes
  read_typed want absent reply s key now =
      let (s', seen) = get env s key now in (s', typed_reply want absent reply seen)

-- A command that changes a container: what the callback captured, or its refusal.
abbrev pub changed_reply : {R : Type 0} → (R → Bytes) → Storage × Option R → Storage × Bytes
changed_reply reply (s, none) = (s, wrong_type)
changed_reply reply (s, some r) = (s, reply r)
