-- ===== src/Command/SetWords.antt =====
-- The options of SET as a client writes them, and how long a value should live by them
-- (command/string_cmd.h).
use concurrent_cache.Prelude.{
  ℕ, ◌*◌, ◌-◌, ◌^◌, ◌<◌, ◌≡◌, refl, ◌∙◌, Bool, true, false, ◌&&◌, ◌||◌, Option, none, some, List,
  [], ◌∷◌, ◌++◌, arith, if◌then◌else◌, ℤ, pos, negsuc, ◌+ℤ◌, ◌-ℤ◌, ltb_ℤ, leb_ℤ,
}
use concurrent_cache.Text.{Bytes, codes, str_eq}
use concurrent_cache.Text.Decimal.{to_string, to_string_ℤ, from_chars_ll, whole}
use concurrent_cache.Base.IntParse.{parse_ll_strict, parse_ll_strict-to_string}
use concurrent_cache.Cache.ExpireDict.Ttl.{is_over}
use concurrent_cache.Cache.Storage.Writes.{
  SetCondition, unconditional, only_if_absent, only_if_exists,
}
use concurrent_cache.Command.SetCommand.{
  ExpMode, ex, px, exat, pxat, SetOptions, no_options, accepted, parse_options, parse_ll, classify,
  to_upper, set_flag, set_mode, due_of, lasting, condition_of,
}

-- EX, PX, EXAT and PXAT with their number.
pub data Lifetime : Type 0 where
  forever : Lifetime
  for_seconds for_ms until_second until_ms : ℕ → Lifetime

abbrev pub lifetime_words : Lifetime → List Bytes
lifetime_words forever = []
lifetime_words (for_seconds n) = codes "EX" ∷ to_string n ∷ []
lifetime_words (for_ms n) = codes "PX" ∷ to_string n ∷ []
lifetime_words (until_second n) = codes "EXAT" ∷ to_string n ∷ []
lifetime_words (until_ms n) = codes "PXAT" ∷ to_string n ∷ []

abbrev pub condition_words : SetCondition → List Bytes
condition_words unconditional = []
condition_words only_if_absent = codes "NX" ∷ []
condition_words only_if_exists = codes "XX" ∷ []

-- The time in milliseconds from which a value that is written at `now` is gone.
abbrev pub deadline : Lifetime → ℤ → Option ℤ
deadline forever now = none
deadline (for_seconds n) now = some (now +ℤ pos (1000 * n))
deadline (for_ms n) now = some (now +ℤ pos n)
deadline (until_second n) now = some (pos (1000 * n))
deadline (until_ms n) now = some (pos n)

-- The largest int64_t ends every lifetime that has an end.
abbrev pub has_ended : Option ℤ → ℤ → Bool
has_ended none later = false
has_ended (some t) later = leb_ℤ t later || leb_ℤ (pos (2 ^ 63 - 1)) later

-- The number is an int64_t, a lifetime is positive and has an int64_t of milliseconds, and a time lies
-- in the future.
abbrev pub IsTimely : Lifetime → ℤ → Type 0
IsTimely forever now = Unit {0}
IsTimely (for_seconds n) now = (0 < n) × (1000 * n < 2 ^ 63)
IsTimely (for_ms n) now = (0 < n) × (n < 2 ^ 63)
IsTimely (until_second n) now =
    (ltb_ℤ now (pos (1000 * n)) ≡ true) × (ltb_ℤ now (pos (2 ^ 63 - 1)) ≡ true) × (n < 2 ^ 63)
IsTimely (until_ms n) now = (ltb_ℤ now (pos n) ≡ true) × (n < 2 ^ 63)

abbrev timed_by : ExpMode → ℕ → SetOptions
timed_by m n = record no_options { mode = m; raw = pos n }

abbrev timing : Lifetime → SetOptions
timing forever = no_options
timing (for_seconds n) = timed_by ex n
timing (for_ms n) = timed_by px n
timing (until_second n) = timed_by exat n
timing (until_ms n) = timed_by pxat n

-- What the parser makes of the words.
abbrev pub chosen : Lifetime → SetCondition → SetOptions
chosen l unconditional = timing l
chosen l only_if_absent = record (timing l) { nx = true }
chosen l only_if_exists = record (timing l) { xx = true }

parse_ll-parse_ll_strict : (s : Bytes) → parse_ll s ≡ parse_ll_strict s
unfolding parse_ll parse_ll_strict from_chars_ll whole
parse_ll-parse_ll_strict [] = refl
parse_ll-parse_ll_strict (c ∷ s) = refl

parse_ll-to_string : (n : ℕ) → n < 2 ^ 63 → parse_ll (to_string n) ≡ some (pos n)
unfolding to_string_ℤ
parse_ll-to_string n h =
    parse_ll-parse_ll_strict (to_string n) ∙ parse_ll_strict-to_string (pos n) (omega arith)

parse_condition_words :
    (l : Lifetime) (c : SetCondition)
    → parse_options (condition_words c) (timing l) ≡ accepted (chosen l c)
unfolding parse_options classify to_upper set_flag str_eq
parse_condition_words forever unconditional = refl
parse_condition_words (for_seconds n) unconditional = refl
parse_condition_words (for_ms n) unconditional = refl
parse_condition_words (until_second n) unconditional = refl
parse_condition_words (until_ms n) unconditional = refl
parse_condition_words forever only_if_absent = refl
parse_condition_words (for_seconds n) only_if_absent = refl
parse_condition_words (for_ms n) only_if_absent = refl
parse_condition_words (until_second n) only_if_absent = refl
parse_condition_words (until_ms n) only_if_absent = refl
parse_condition_words forever only_if_exists = refl
parse_condition_words (for_seconds n) only_if_exists = refl
parse_condition_words (for_ms n) only_if_exists = refl
parse_condition_words (until_second n) only_if_exists = refl
parse_condition_words (until_ms n) only_if_exists = refl

-- The words of a lifetime in front are read, and the rest goes on from there.
parse_lifetime_words :
    (l : Lifetime) (now : ℤ) (rest : List Bytes)
    → IsTimely l now
    → parse_options (lifetime_words l ++ rest) no_options ≡ parse_options rest (timing l)
unfolding parse_options classify to_upper set_mode str_eq
parse_lifetime_words forever now rest t = refl
parse_lifetime_words (for_seconds n) now rest t =
    rw (parse_ll-to_string n (omega (arith, t.1))) refl
parse_lifetime_words (for_ms n) now rest t = rw (parse_ll-to_string n t.1) refl
parse_lifetime_words (until_second n) now rest t = rw (parse_ll-to_string n t.2) refl
parse_lifetime_words (until_ms n) now rest t = rw (parse_ll-to_string n t.1) refl

pub parse_options-words :
    (l : Lifetime) (c : SetCondition) (now : ℤ)
    → IsTimely l now
    → parse_options (lifetime_words l ++ condition_words c) no_options ≡ accepted (chosen l c)
parse_options-words l c now t =
    parse_lifetime_words l now (condition_words c) t ∙ parse_condition_words l c

-- The time to live that the command comes to.
abbrev pub ttl_of : Lifetime → ℤ → ℤ
ttl_of forever now = pos 0
ttl_of (for_seconds n) now = pos (1000 * n)
ttl_of (for_ms n) now = pos n
ttl_of (until_second n) now =
    (if ltb_ℤ (pos (2 ^ 63 - 1)) (pos (1000 * n)) then pos (2 ^ 63 - 1) else pos (1000 * n)) -ℤ now
ttl_of (until_ms n) now = pos n -ℤ now

due_of-timing :
    (l : Lifetime) (now : ℤ) → IsTimely l now → due_of (timing l) now ≡ lasting (ttl_of l now)
unfolding due_of
due_of-timing forever now t = refl
due_of-timing (for_seconds n) now t = ground (arith, t)
due_of-timing (for_ms n) now t = ground (arith, t)
due_of-timing (until_second n) now t = ground (arith, t)
due_of-timing (until_ms n) now t = ground (arith, t)

due_of-condition :
    (l : Lifetime) (c : SetCondition) (now : ℤ) → due_of (chosen l c) now ≡ due_of (timing l) now
unfolding due_of
due_of-condition l unconditional now = refl
due_of-condition l only_if_absent now = refl
due_of-condition l only_if_exists now = refl

pub due_of-chosen :
    (l : Lifetime) (c : SetCondition) (now : ℤ)
    → IsTimely l now
    → due_of (chosen l c) now ≡ lasting (ttl_of l now)
due_of-chosen l c now t = due_of-condition l c now ∙ due_of-timing l now t

pub has_ended-ttl_of :
    (l : Lifetime) (now later : ℤ)
    → IsTimely l now
    → (ltb_ℤ (pos 0) (ttl_of l now) && is_over now (ttl_of l now) later)
      ≡ has_ended (deadline l now) later
unfolding ◌+ℤ◌ ◌-ℤ◌
has_ended-ttl_of forever now later t = refl
has_ended-ttl_of (for_seconds n) now later t = ground (arith, t)
has_ended-ttl_of (for_ms n) now later t = ground (arith, t)
has_ended-ttl_of (until_second n) (pos m) later t = ground (arith, t)
has_ended-ttl_of (until_second n) (negsuc m) later t = ground (arith, t)
has_ended-ttl_of (until_ms n) (pos m) later t = ground (arith, t)
has_ended-ttl_of (until_ms n) (negsuc m) later t = ground (arith, t)

timing_no_condition : (l : Lifetime) → ((timing l).nx ≡ false) × ((timing l).xx ≡ false)
timing_no_condition forever = (refl, refl)
timing_no_condition (for_seconds n) = (refl, refl)
timing_no_condition (for_ms n) = (refl, refl)
timing_no_condition (until_second n) = (refl, refl)
timing_no_condition (until_ms n) = (refl, refl)

pub condition_of-chosen : (l : Lifetime) (c : SetCondition) → condition_of (chosen l c) ≡ c
condition_of-chosen l unconditional = rw ((timing_no_condition l).0, (timing_no_condition l).1) refl
condition_of-chosen l only_if_absent = refl
condition_of-chosen l only_if_exists = rw (timing_no_condition l).0 refl

timing_alone : (l : Lifetime) → ((timing l).want_get ≡ false) × ((timing l).keep_ttl ≡ false)
timing_alone forever = (refl, refl)
timing_alone (for_seconds n) = (refl, refl)
timing_alone (for_ms n) = (refl, refl)
timing_alone (until_second n) = (refl, refl)
timing_alone (until_ms n) = (refl, refl)

pub chosen_alone :
    (l : Lifetime) (c : SetCondition)
    → ((chosen l c).want_get ≡ false) × ((chosen l c).keep_ttl ≡ false)
chosen_alone l unconditional = timing_alone l
chosen_alone l only_if_absent = timing_alone l
chosen_alone l only_if_exists = timing_alone l
