-- ===== src/Command/Sets.antt =====
-- src/command/string_cmd.h: SADD, SPOP, SCARD, SISMEMBER and SMEMBERS. The position that SPOP draws is
-- an argument, by the number of members.
use concurrent_cache.Prelude.{
  ℕ, zero, suc, Option, none, some, List, [], ◌∷◌, length, get_or, ◌==◌, if◌then◌else◌, ℤ, pos,
}
use concurrent_cache.Text.{Bytes}
use concurrent_cache.Datatype.Object.{CacheObject, set}
use concurrent_cache.Datatype.Object.Sets.{set_add, set_remove, set_contains, set_size, set_members}
use concurrent_cache.Protocol.Resp.Encoder.{encode_integer, encode_array}
use concurrent_cache.Cache.Storage.{Setting, Storage}
use concurrent_cache.Cache.Storage.Writes.{mutate, StoreOp, noop, write, erase_key, allow, reject}
use concurrent_cache.Command.{wrong_arguments, bulk_or_nil, read_typed, changed_reply}
use concurrent_cache.Command.Lists.{count_reply}

-- The members in turn, and how many were new.
unfoldable pub add_members : List Bytes → CacheObject → CacheObject × ℕ
add_members [] o = (o, 0)
add_members (member ∷ members) o =
    let (o', added) = set_add o member in
    let (o'', n) = add_members members o' in (o'', (if added then suc n else n))

-- Nothing is written back where nothing was added.
abbrev pub if_any : ℕ → StoreOp
if_any zero = noop
if_any (suc n) = write

abbrev pub adding_members : List Bytes → CacheObject → CacheObject × StoreOp × ℕ
adding_members members o = (let (o', n) = add_members members o in (o', if_any n, n))

abbrev pub removing : CacheObject → Bytes → CacheObject × StoreOp × Option Bytes
removing o member =
    let o' = (set_remove o member).0 in
    (o', (if set_size o' == 0 then erase_key else write), some member)

abbrev pub pop_drawn : ℕ → List Bytes → CacheObject → CacheObject × StoreOp × Option Bytes
pop_drawn i [] o = (o, noop, none)
pop_drawn i (m ∷ ms) o = removing o (get_or (m ∷ ms) i [])

abbrev pub popping_member : (ℕ → ℕ) → CacheObject → CacheObject × StoreOp × Option Bytes
popping_member draw o = pop_drawn (draw (length (set_members o))) (set_members o) o

module _ (env : Setting) where
  unfoldable pub sadd_command : Storage → List Bytes → ℤ → Storage × Bytes
  sadd_command s (name ∷ key ∷ member ∷ members) now =
      changed_reply count_reply (mutate env s key set (adding_members (member ∷ members)) allow now)
  sadd_command s args now = (s, wrong_arguments "sadd")

  unfoldable pub spop_command : (ℕ → ℕ) → Storage → List Bytes → ℤ → Storage × Bytes
  spop_command draw s (name ∷ key ∷ []) now =
      changed_reply bulk_or_nil (mutate env s key set (popping_member draw) reject now)
  spop_command draw s args now = (s, wrong_arguments "spop")

  unfoldable pub scard_command : Storage → List Bytes → ℤ → Storage × Bytes
  unfolding read_typed
  scard_command s (name ∷ key ∷ []) now =
      read_typed env set (encode_integer (pos 0)) (λ o. count_reply (set_size o)) s key now
  scard_command s args now = (s, wrong_arguments "scard")

  unfoldable pub sismember_command : Storage → List Bytes → ℤ → Storage × Bytes
  unfolding read_typed
  sismember_command s (name ∷ key ∷ member ∷ []) now =
      read_typed env set (encode_integer (pos 0))
        (λ o. encode_integer (if set_contains o member then pos 1 else pos 0)) s key now
  sismember_command s args now = (s, wrong_arguments "sismember")

  unfoldable pub smembers_command : Storage → List Bytes → ℤ → Storage × Bytes
  unfolding read_typed
  smembers_command s (name ∷ key ∷ []) now =
      read_typed env set (encode_array []) (λ o. encode_array (set_members o)) s key now
  smembers_command s args now = (s, wrong_arguments "smembers")
