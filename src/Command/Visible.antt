-- ===== src/Command/Visible.antt =====
-- What a client sees of a key through the commands.
use concurrent_cache.Prelude.{
  ◌≡◌, refl, sym, ap, ◌∙◌, Bool, true, false, ◌&&◌, Option, none, some, List, [], ◌∷◌, ◌++◌, arith,
  if◌then◌else◌, ℤ, pos, ◌≤ℤ◌, ltb_ℤ, ◌>>=◌, when_some, ◌+ℤ◌, negsuc, Bool-cases, Option-cases, inl,
  inr,
}
use concurrent_cache.Text.{Bytes, codes, str_eq}
use concurrent_cache.Base.IntParse.{
  FitsInt64, fits_int64, fitting, denotes, parse_ll_strict, parse_ll_strict-denotes,
}
use concurrent_cache.Datatype.Object.{CacheObject, of_string, get_string}
use concurrent_cache.Protocol.Resp.Encoder.{
  encode_ok, encode_nil, encode_integer, encode_error, encode_bulk_string, classed, starts_with,
}
use concurrent_cache.Cache.ExpireDict.Ttl.{is_over}
use concurrent_cache.Cache.Storage.{Setting, Storage}
use concurrent_cache.Cache.Storage.Eviction.{evict_if_needed}
use concurrent_cache.Cache.Storage.Writes.{set_conditional, incrby, SetCondition}
use concurrent_cache.Cache.Storage.Lookup.{WellFormed}
use concurrent_cache.Cache.Storage.View.{view}
use concurrent_cache.Cache.Storage.Reads.{get_lem}
use concurrent_cache.Cache.Storage.Conditional.{allows, set_conditional_lem}
use concurrent_cache.Cache.Storage.Counters.{count_seen, checked_add, incrby_lem, recounted}
use concurrent_cache.Command.Strings.{get_command, get_reply, apply_incrby, added_reply, refusal}
use concurrent_cache.Command.SetCommand.{
  SetOptions, no_options, accepted, parse_options, lasting, due_of, condition_of, set_command,
  set_parsed, set_due, store_value,
}
use concurrent_cache.Command.SetWords.{
  Lifetime, lifetime_words, condition_words, deadline, has_ended, IsTimely, chosen, ttl_of,
  parse_options-words, due_of-chosen, has_ended-ttl_of, condition_of-chosen, chosen_alone,
}

and_false : (b : Bool) → (b && false) ≡ false
and_false true = refl
and_false false = refl

-- What GET should answer, by the value that is seen.
abbrev pub get_answer : Option CacheObject → Bytes
get_answer none = codes "$-1\r\n"
get_answer (some v) =
    when_some (get_string v)
      (codes "-WRONGTYPE Operation against a key holding the wrong kind of value\r\n")
      encode_bulk_string

get_reply-get_answer : (seen : Option CacheObject) → get_reply seen ≡ get_answer seen
unfolding encode_nil encode_error classed starts_with
get_reply-get_answer none = refl
get_reply-get_answer (some v) = refl

-- What INCRBY should reply, byte for byte where it refuses, by the value that is seen.
abbrev sum_reply : Option ℤ → ℤ → Bytes
sum_reply none delta = codes "-ERR value is not an integer\r\n"
sum_reply (some n) delta =
    if fits_int64 (n +ℤ delta)
    then encode_integer (n +ℤ delta)
    else codes "-ERR increment or decrement would overflow\r\n"

abbrev pub incremented_reply : Option CacheObject → ℤ → Bytes
incremented_reply none delta = encode_integer delta
incremented_reply (some v) delta =
    when_some (get_string v)
      (codes "-WRONGTYPE Operation against a key holding the wrong kind of value\r\n")
      (λ text. sum_reply (fitting (denotes text)) delta)

abbrev attempted : Option CacheObject → ℤ → Bytes
attempted seen delta =
    when_some (count_seen seen >>= λ v. checked_add v delta) (refusal seen) encode_integer

attempted_new : (delta : ℤ) → FitsInt64 delta → attempted none delta ≡ encode_integer delta
unfolding ◌+ℤ◌
attempted_new (pos n) k = ground arith
attempted_new (negsuc n) k = ground arith

attempted_sum :
    (seen : CacheObject) (t : Bytes) (number : Option ℤ) (delta : ℤ)
    → get_string seen ≡ some t
    → parse_ll_strict t ≡ number
    → attempted (some seen) delta ≡ sum_reply number delta
unfolding encode_error classed starts_with
attempted_sum seen t none delta e f = rw (e, f) refl
attempted_sum seen t (some n) delta e f = elim (Bool-cases (fits_int64 (n +ℤ delta))) [
  | inl fits ↦ rw (e, f, fits) refl
  | inr leaves ↦ rw (e, f, leaves) refl
]

refusal-incremented_reply :
    (seen : Option CacheObject) (delta : ℤ)
    → FitsInt64 delta
    → attempted seen delta ≡ incremented_reply seen delta
unfolding encode_error classed starts_with
refusal-incremented_reply none delta k = attempted_new delta k
refusal-incremented_reply (some v) delta k = elim (Option-cases (get_string v)) [
  | inl e ↦ rw e refl
  | inr (t, e) ↦
      attempted_sum v t (fitting (denotes t)) delta e (parse_ll_strict-denotes t) ∙ rw e refl
]

module _ (env : Setting) where
  -- On a well-formed store, GET replies with what is seen of the key.
  get_command-view :
      (s : Storage) (name key : Bytes) (now : ℤ)
      → WellFormed env s.stores
      → (get_command env s (name ∷ key ∷ []) now).1 ≡ get_reply (view env s key now)
  unfolding get_command
  get_command-view s name key now w = ap get_reply (get_lem env s key key now now w (omega arith)).1

  module _ (s : Storage) (name key val other getter : Bytes) (options : List Bytes) (o : SetOptions)
      (ttl now later : ℤ) (w : WellFormed env s.stores)
      (parsed : parse_options options no_options ≡ accepted o) (no_get : o.want_get ≡ false)
      (timed : o.keep_ttl ≡ false) (lasts : due_of o now ≡ lasting ttl) (le : now ≤ℤ later) where
    -- With no GET and no KEEPTTL, the command is the conditional write.
    abbrev plain : Storage × Bytes
    plain =
        let (s', applied, previous) =
          set_conditional env s key (of_string val) (condition_of o) ttl false now in
        (s', (if applied then encode_ok else encode_nil))

    set_command-plain : set_command env s (name ∷ key ∷ val ∷ options) now ≡ plain
    unfolding set_command set_parsed set_due store_value
    set_command-plain = rw (parsed, lasts, no_get, and_false o.nx, timed) refl

    -- For any options that the parser takes.
    set_command_shown :
        let s₁ = evict_if_needed env s now in
        let written = allows (condition_of o) (view env s₁ key now) in
        let (s', reply) = set_command env s (name ∷ key ∷ val ∷ options) now in
        (reply ≡ (if written then encode_ok else encode_nil))
        × ((get_command env s' (getter ∷ other ∷ []) later).1
            ≡ get_reply (
                if written && str_eq key other
                then (if ltb_ℤ (pos 0) ttl && is_over now ttl later
                    then none
                    else some (of_string val))
                else view env s₁ other later))
    set_command_shown =
        let (w', prev, written, shown) =
          set_conditional_lem env s key other (of_string val) (condition_of o) ttl now later w le in
        rw set_command-plain (
          rw (written, prev) refl,
          get_command-view plain.0 getter other later w'
              ∙ ap get_reply (rw (shown, written, prev) refl),
        )

  -- SET with an EX, PX, EXAT or PXAT or none of them, then NX or XX or neither, and no other option, on a
  -- well-formed store, where the expiry is valid and lies ahead, compared with the store that eviction left: the
  -- reply is OK if the key is seen or not as XX or NX asks, and nil if not. A GET of any key at `now`
  -- or later is answered with the new value until the time that the option names, for the key that was
  -- written, and with what was seen before for any other. A lifetime ends at the latest when the clock
  -- stands at the largest int64_t.
  pub set_command_lem :
      (s : Storage) (name key val other getter : Bytes) (l : Lifetime) (c : SetCondition)
      (now later : ℤ)
      → WellFormed env s.stores
      → IsTimely l now
      → now ≤ℤ later
      → let s₁ = evict_if_needed env s now in
        let written = allows c (view env s₁ key now) in
        let (s', reply) =
          set_command env s (name ∷ key ∷ val ∷ (lifetime_words l ++ condition_words c)) now in
        (reply ≡ (if written then codes "+OK\r\n" else codes "$-1\r\n"))
        × ((get_command env s' (getter ∷ other ∷ []) later).1
            ≡ get_answer (
                if written && str_eq key other
                then (if has_ended (deadline l now) later then none else some (of_string val))
                else view env s₁ other later))
  unfolding encode_ok encode_nil
  set_command_lem s name key val other getter l c now later w t le =
      let (reply, answer) =
        rw (condition_of-chosen l c, has_ended-ttl_of l now later t) at
          (set_command_shown s name key val other getter (lifetime_words l ++ condition_words c)
            (chosen l c) (ttl_of l now) now later w (parse_options-words l c now t)
            (chosen_alone l c).0 (chosen_alone l c).1 (due_of-chosen l c now t) le) in
      (reply, answer ∙ get_reply-get_answer _)

  answered :
      (key : Bytes) (now : ℤ) (seen : Option CacheObject) (r : Storage × Option ℤ)
      → WellFormed env r.0.stores
      → (r.1 ≡ none → view env r.0 key now ≡ seen)
      → (added_reply env key now r).1 ≡ when_some r.1 (refusal seen) encode_integer
  unfolding added_reply
  answered key now seen (s', some v) w same = refl
  answered key now seen (s', none) w same =
      ap refusal ((get_lem env s' key key now now w (omega arith)).1 ∙ same refl)

  unchanged :
      (sum : Option ℤ) (b : Bool) (shown : ℤ → Option CacheObject) (old new : Option CacheObject)
      → new ≡ (if b then recounted sum shown old else old)
      → sum ≡ none
      → new ≡ old
  unchanged none true shown old new h e = h
  unchanged none false shown old new h e = h
  unchanged (some v) b shown old new h e = cc

  -- INCRBY and its kin on a well-formed store, for an int64_t `delta`: the reply is the sum of `delta` and
  -- the number that is seen, or 0 for a missing key; where that is refused, it names the reason: the
  -- wrong type, a text that denotes no int64_t, or a sum that is none.
  pub apply_incrby_lem :
      (s : Storage) (key : Bytes) (delta now : ℤ)
      → WellFormed env s.stores
      → FitsInt64 delta
      → (apply_incrby env s key delta now).1
        ≡ incremented_reply (view env (evict_if_needed env s now) key now) delta
  unfolding apply_incrby
  apply_incrby_lem s key delta now w k =
      let s₁ = evict_if_needed env s now in
      let (w', answer, shown) = incrby_lem env s key key delta now now w k (omega arith) in
      answered key now (view env s₁ key now) (incrby env s key delta now) w' (λ e.
        unchanged (count_seen (view env s₁ key now) >>= λ v. checked_add v delta) (str_eq key key) _
          (view env s₁ key now) _ shown (sym answer ∙ e))
      ∙ rw answer refl
      ∙ refusal-incremented_reply (view env s₁ key now) delta k
