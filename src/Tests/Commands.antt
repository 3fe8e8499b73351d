-- ===== src/Tests/Commands.antt =====
-- src/command at concrete inputs.
use concurrent_cache.Prelude.{
  ◌+◌, ◌*◌, ◌-◌, ◌≡◌, refl, true, false, none, some, List, [], ◌∷◌, ◌++◌, arith, if◌then◌else◌,
  ◌&&◌, ◌>>=◌, ltb, pos, negsuc,
}
use concurrent_cache.Text.{Bytes, codes, str_eq}
use concurrent_cache.Text.Stoll.{stoll, skip_space, after_space, signed_digits}
use concurrent_cache.Text.Decimal.{from_chars_ll, from_chars_magnitude, whole, scan}
use concurrent_cache.Table.{find, insert_or_assign, contains}
use concurrent_cache.Datatype.Object.{list, of_string}
use concurrent_cache.Protocol.Resp.Encoder.{encode_integer}
use concurrent_cache.Cache.ExpireDict.{is_expired}
use concurrent_cache.Cache.Storage.{new_storage, get_shard_index, exist, entry_of}
use concurrent_cache.Cache.Storage.Eviction.{evict_if_needed}
use concurrent_cache.Cache.Storage.Writes.{allow, mutate, incrby, only_if_absent}
use concurrent_cache.Cache.Storage.View.{view}
use concurrent_cache.Cache.Storage.Conditional.{allows}
use concurrent_cache.Cache.Storage.Mutates.{
  Mutated, mutate_lem, usable, seen_object, expiry_left, unexpired,
}
use concurrent_cache.Cache.Storage.Counters.{Incremented, incrby_lem, count_seen, checked_add}
use concurrent_cache.Command.Strings.{get_command, apply_incrby}
use concurrent_cache.Command.SetCommand.{
  no_options, accepted, parse_options, classify, set_flag, set_mode, to_upper, parse_ll,
  set_command, px,
}
use concurrent_cache.Command.SetWords.{
  for_seconds, lifetime_words, condition_words, deadline, has_ended,
}
use concurrent_cache.Command.Expiry.{expire_command, pttl_command}
use concurrent_cache.Command.Lists.{pushing}
use concurrent_cache.Command.Visible.{
  set_command_lem, get_answer, incremented_reply, apply_incrby_lem,
}
use concurrent_cache.Command.Timed.{expire_command-pttl_command}
use concurrent_cache.Tests.Stores.{machine, key, other, stale, stale-WellFormed}

abbrev one : List Bytes
one = codes "one" ∷ []

mutate_lem_example :
    let s₁ = evict_if_needed machine stale (pos 200) in
    let seen = view machine s₁ key (pos 200) in
    Mutated machine s₁
      (expiry_left (entry_of machine s₁ key) (pos 200) (find key s₁.expire_dict))
      key
      other
      (pos 300)
      (usable list allow seen)
      (pushing false one (seen_object seen))
      (mutate machine stale key list (pushing false one) allow (pos 200))
mutate_lem_example =
    mutate_lem machine stale key other list (pushing false one) allow (pos 200) (pos 300)
      stale-WellFormed (omega arith)

incrby_lem_example :
    let s₁ = evict_if_needed machine stale (pos 200) in
    Incremented machine s₁
      (unexpired (pos 200) (find key s₁.expire_dict))
      key
      key
      (pos 300)
      (count_seen (view machine s₁ key (pos 200)) >>= λ v. checked_add v (pos 5))
      (incrby machine stale key (pos 5) (pos 200))
incrby_lem_example =
    incrby_lem machine stale key key (pos 5) (pos 200) (pos 300) stale-WellFormed (omega arith)
      (omega arith)

apply_incrby_lem_example :
    (apply_incrby machine stale key (negsuc 4) (pos 200)).1
    ≡ incremented_reply
        (view machine (evict_if_needed machine stale (pos 200)) key (pos 200))
        (negsuc 4)
apply_incrby_lem_example =
    apply_incrby_lem machine stale key (negsuc 4) (pos 200) stale-WellFormed (omega arith)

-- Words in small letters, and in any order.
abbrev options : List Bytes
options = codes "NX" ∷ codes "px" ∷ codes "40" ∷ []

parsed :
    parse_options options no_options
    ≡ accepted (record no_options { mode = px; raw = pos 40; nx = true })
unfolding parse_options classify set_flag set_mode to_upper parse_ll whole from_chars_ll
    from_chars_magnitude scan str_eq
parsed = refl

set_command_lem_example :
    let s₁ = evict_if_needed machine stale (pos 200) in
    let written = allows only_if_absent (view machine s₁ key (pos 200)) in
    let (s', reply) =
      set_command machine stale
        (codes "SET"
          ∷ key
          ∷ codes "w"
          ∷ (lifetime_words (for_seconds 2) ++ condition_words only_if_absent))
        (pos 200) in
    (reply ≡ (if written then codes "+OK\r\n" else codes "$-1\r\n"))
    × ((get_command machine s' (codes "GET" ∷ key ∷ []) (pos 220)).1
        ≡ get_answer (
            if written && str_eq key key
            then (if has_ended (deadline (for_seconds 2) (pos 200)) (pos 220)
                then none
                else some (of_string (codes "w")))
            else view machine s₁ key (pos 220)))
set_command_lem_example =
    set_command_lem machine stale (codes "SET") key (codes "w") key (codes "GET") (for_seconds 2)
      only_if_absent (pos 200) (pos 220) stale-WellFormed (omega arith, omega arith) (omega arith)

ten : stoll (codes "10 s") ≡ some (pos 10, codes " s")
unfolding stoll skip_space after_space signed_digits scan
ten = refl

there : exist machine stale key (pos 120) ≡ true
unfolding exist is_expired find insert_or_assign str_eq new_storage get_shard_index contains
there = refl

expire_command-pttl_command_example :
    let (s', reply) =
      expire_command machine stale (codes "EXPIRE" ∷ key ∷ codes "10 s" ∷ []) (pos 120) in
    (reply ≡ encode_integer (pos 1))
    × ((pttl_command machine s' (codes "PTTL" ∷ key ∷ []) (pos (120 + 500))).1
        ≡ encode_integer (if ltb 500 (10 * 1000) then pos (10 * 1000 - 500) else negsuc 1))
expire_command-pttl_command_example =
    expire_command-pttl_command machine stale (codes "EXPIRE") (codes "PTTL") 97 [] (codes "10 s")
      (codes " s") 10 120 500 ten (omega arith) (omega arith) (omega arith) there
