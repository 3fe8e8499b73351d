-- ===== src/Command/SortedSets.antt =====
-- src/command/string_cmd.h: ZADD, ZSCORE, ZCARD and ZRANGE. Reading a score with std::stod and printing
-- it (RespEncoder::format_double, through std::snprintf) are arguments.
use concurrent_cache.Prelude.{
  ℕ, suc, Bool, true, false, ◌||◌, Option, none, some, List, [], ◌∷◌, if◌then◌else◌, ℤ, pos,
  when_some,
}
use concurrent_cache.Text.{Bytes, codes, str_eq}
use concurrent_cache.Base.IntParse.{parse_ll_strict}
use concurrent_cache.Datatype.Double.{Double, is_nan, is_inf}
use concurrent_cache.Datatype.Object.{CacheObject, zset}
use concurrent_cache.Datatype.Object.SortedSets.{
  zset_add, zset_score, zset_size, zset_range_by_index,
}
use concurrent_cache.Protocol.Resp.Encoder.{
  encode_error, encode_integer, encode_array, encode_nil, encode_bulk_string,
}
use concurrent_cache.Cache.Storage.{Setting, Storage}
use concurrent_cache.Cache.Storage.Writes.{mutate, StoreOp, allow}
use concurrent_cache.Command.{wrong_arguments, not_integer_in_range, read_typed, changed_reply}
use concurrent_cache.Command.Lists.{count_reply}
use concurrent_cache.Command.Sets.{if_any}

-- std::stod, with the text from `consumed` on; `none` is an exception.
pub record DoubleText : Type 0 where
  pub stod : Bytes → Option (Double × Bytes)
  pub format_double : Double → Bytes

-- The entries, or the reply that refuses them.
pub data Entries : Type 0 where
  entries : List (Bytes × Double) → Entries
  bad_entry : Bytes → Entries

abbrev pub not_float : Bytes
not_float = encode_error (codes "ERR value is not a valid float")

abbrev pub more_entries : Bytes → Double → Entries → Entries
more_entries member score (entries es) = entries ((member, score) ∷ es)
more_entries member score (bad_entry reply) = bad_entry reply

abbrev pub checked_entry : Option (Double × Bytes) → Bytes → Entries → Entries
checked_entry none member rest = bad_entry not_float
checked_entry (some (score, c ∷ left)) member rest = bad_entry not_float
checked_entry (some (score, [])) member rest =
    if is_nan score || is_inf score
    then bad_entry (encode_error (codes "ERR value is NaN or Infinity"))
    else more_entries member score rest

-- The pairs of score and member; an odd number is a wrong number of arguments.
unfoldable pub read_entries : DoubleText → List Bytes → Entries
read_entries d [] = entries []
read_entries d (score ∷ []) = bad_entry (wrong_arguments "zadd")
read_entries d (score ∷ member ∷ rest) = checked_entry (d.stod score) member (read_entries d rest)

abbrev pub is_even : List Bytes → Bool
is_even [] = true
is_even (a ∷ []) = false
is_even (a ∷ b ∷ rest) = is_even rest

-- The entries in turn, and how many changed something.
unfoldable pub add_entries : List (Bytes × Double) → CacheObject → CacheObject × ℕ
add_entries [] o = (o, 0)
add_entries ((member, score) ∷ es) o =
    let (o', added) = zset_add o member score in
    let (o'', n) = add_entries es o' in (o'', (if added then suc n else n))

abbrev pub adding_entries : List (Bytes × Double) → CacheObject → CacheObject × StoreOp × ℕ
adding_entries es o = (let (o', n) = add_entries es o in (o', if_any n, n))

abbrev pub score_reply : DoubleText → Option Double → Bytes
score_reply d none = encode_nil
score_reply d (some score) = encode_bulk_string (d.format_double score)

unfoldable pub range_items : DoubleText → Bool → List (Bytes × Double) → List Bytes
range_items d with_scores [] = []
range_items d with_scores ((member, score) ∷ es) =
    let rest = range_items d with_scores es in
    if with_scores then member ∷ d.format_double score ∷ rest else member ∷ rest

module _ (env : Setting) (d : DoubleText) where
  unfoldable pub add_read : Storage → Bytes → Entries → ℤ → Storage × Bytes
  add_read s key (bad_entry reply) now = (s, reply)
  add_read s key (entries es) now =
      changed_reply count_reply (mutate env s key zset (adding_entries es) allow now)

  unfoldable pub zadd_command : Storage → List Bytes → ℤ → Storage × Bytes
  unfolding add_read
  zadd_command s (name ∷ key ∷ score ∷ member ∷ rest) now =
      if is_even rest
      then add_read s key (read_entries d (score ∷ member ∷ rest)) now
      else (s, wrong_arguments "zadd")
  zadd_command s args now = (s, wrong_arguments "zadd")

  unfoldable pub zscore_command : Storage → List Bytes → ℤ → Storage × Bytes
  unfolding read_typed
  zscore_command s (name ∷ key ∷ member ∷ []) now =
      read_typed env zset encode_nil (λ o. score_reply d (zset_score o member)) s key now
  zscore_command s args now = (s, wrong_arguments "zscore")

  unfoldable pub zcard_command : Storage → List Bytes → ℤ → Storage × Bytes
  unfolding read_typed
  zcard_command s (name ∷ key ∷ []) now =
      read_typed env zset (encode_integer (pos 0)) (λ o. count_reply (zset_size o)) s key now
  zcard_command s args now = (s, wrong_arguments "zcard")

  unfoldable pub range_reply : Storage → Bytes → Bytes → Bytes → Bool → ℤ → Storage × Bytes
  unfolding read_typed
  range_reply s key from to with_scores now =
      when_some (parse_ll_strict from) (s, not_integer_in_range)
        (λ start.
          when_some (parse_ll_strict to) (s, not_integer_in_range)
            (λ stop.
              read_typed env zset (encode_array [])
                (λ o. encode_array (range_items d with_scores (zset_range_by_index o start stop))) s
                key now))

  unfoldable pub zrange_command : Storage → List Bytes → ℤ → Storage × Bytes
  unfolding range_reply
  zrange_command s (name ∷ key ∷ from ∷ to ∷ []) now = range_reply s key from to false now
  zrange_command s (name ∷ key ∷ from ∷ to ∷ word ∷ []) now =
      range_reply s key from to (str_eq word (codes "WITHSCORES")) now
  zrange_command s args now = (s, wrong_arguments "zrange")
