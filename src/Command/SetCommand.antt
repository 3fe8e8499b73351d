-- ===== src/Command/SetCommand.antt =====
-- src/command/string_cmd.h: SET with its options.
use concurrent_cache.Prelude.{
  ℕ, ◌+◌, ◌-◌, ◌*◌, ◌^◌, ◌/◌, Bool, true, false, ◌&&◌, ◌||◌, not, Option, none, some, List, [], ◌∷◌,
  map, leb, if◌then◌else◌, is_some, ℤ, pos, negsuc, ◌-ℤ◌, leb_ℤ, ltb_ℤ, when_some,
}
use concurrent_cache.Text.{Bytes, codes, str_eq}
use concurrent_cache.Text.Decimal.{from_chars_ll, whole}
use concurrent_cache.Datatype.Object.{CacheObject, of_string, get_string}
use concurrent_cache.Protocol.Resp.Encoder.{encode_error, encode_bulk_string, encode_nil, encode_ok}
use concurrent_cache.Cache.ExpireDict.{max_ms}
use concurrent_cache.Cache.Storage.{Setting, Storage, get, del}
use concurrent_cache.Cache.Storage.Writes.{
  set_conditional, SetCondition, unconditional, only_if_absent, only_if_exists,
}
use concurrent_cache.Command.{wrong_arguments, wrong_type, not_integer_in_range}

pub data ExpMode : Type 0 where
  no_expiry ex px exat pxat : ExpMode

pub record SetOptions : Type 0 where
  pub mode : ExpMode
  pub raw : ℤ
  pub nx : Bool
  pub xx : Bool
  pub want_get : Bool
  pub keep_ttl : Bool

abbrev pub no_options : SetOptions
no_options = record {
  mode = no_expiry;
  raw = pos 0;
  nx = false;
  xx = false;
  want_get = false;
  keep_ttl = false;
}

abbrev pub upper : ℕ → ℕ
upper c = if leb b'a' c && leb c b'z' then c - 32 else c

unfoldable pub to_upper : Bytes → Bytes
to_upper s = map upper s

unfoldable pub parse_ll : Bytes → Option ℤ
parse_ll s = whole (from_chars_ll s)

-- What an option word asks for.
pub data Word : Type 0 where
  expiry_word : ExpMode → Word
  nx_word xx_word get_word keepttl_word unknown_word : Word

unfoldable pub classify : Bytes → Word
classify opt =
    if str_eq opt (codes "EX")
    then expiry_word ex
    else if str_eq opt (codes "PX")
    then expiry_word px
    else if str_eq opt (codes "EXAT")
    then expiry_word exat
    else if str_eq opt (codes "PXAT")
    then expiry_word pxat
    else if str_eq opt (codes "NX")
    then nx_word
    else if str_eq opt (codes "XX")
    then xx_word
    else if str_eq opt (codes "GET")
    then get_word
    else if str_eq opt (codes "KEEPTTL")
    then keepttl_word
    else unknown_word

-- The options, or the reply that refuses them.
pub data Parsed : Type 0 where
  accepted : SetOptions → Parsed
  rejected : Bytes → Parsed

abbrev pub syntax_error : Bytes
syntax_error = encode_error (codes "ERR syntax error")

abbrev pub has_mode : SetOptions → Bool
has_mode o = elim o.mode [ no_expiry ↦ false | _ ↦ true ]

-- A word that stands alone; `none` where it conflicts with one before.
unfoldable pub set_flag : Word → SetOptions → Option SetOptions
set_flag (expiry_word m) o = none
set_flag nx_word o = if o.xx || o.nx then none else some (record o { nx = true })
set_flag xx_word o = if o.xx || o.nx then none else some (record o { xx = true })
set_flag get_word o = some (record o { want_get = true })
set_flag keepttl_word o =
    if has_mode o || o.keep_ttl then none else some (record o { keep_ttl = true })
set_flag unknown_word o = none

-- An expiry with its number.
unfoldable pub set_mode : ExpMode → Bytes → SetOptions → Parsed
set_mode m amount o =
    if has_mode o || o.keep_ttl
    then rejected syntax_error
    else when_some (parse_ll amount) (rejected not_integer_in_range)
        (λ raw. accepted (record o { mode = m; raw = raw }))

abbrev pub and_then : Parsed → (SetOptions → Parsed) → Parsed
and_then (accepted o) f = f o
and_then (rejected reply) f = rejected reply

abbrev pub flagged : Option SetOptions → Parsed
flagged none = rejected syntax_error
flagged (some o) = accepted o

abbrev pub takes_number : Word → Bool
takes_number (expiry_word m) = true
takes_number _ = false

abbrev pub mode_of : Word → ExpMode
mode_of (expiry_word m) = m
mode_of _ = no_expiry

unfoldable pub parse_options : List Bytes → SetOptions → Parsed
unfolding set_flag set_mode
parse_options [] o = accepted o
parse_options (word ∷ []) o = flagged (set_flag (classify (to_upper word)) o)
parse_options (word ∷ next ∷ rest) o = elim (takes_number (classify (to_upper word))) [
  | true ↦
      and_then (set_mode (mode_of (classify (to_upper word))) next o) (λ o'. parse_options rest o')
  | false ↦
      and_then (flagged (set_flag (classify (to_upper word)) o))
        (λ o'. parse_options (next ∷ rest) o')
]

-- What the expiry comes to: an error, a TTL (0 for none), or a time that has passed.
pub data Due : Type 0 where
  invalid : Due
  lasting : ℤ → Due
  passed : Due

-- LLONG_MAX / 1000
abbrev pub max_seconds : ℤ
max_seconds = pos ((2 ^ 63 - 1) / 1000)

abbrev pub thousandfold : ℤ → ℤ
thousandfold (pos n) = pos (n * 1000)
thousandfold (negsuc n) = negsuc (n * 1000 + 999)

abbrev pub absolute : ℤ → ℤ → Due
absolute abs_ms now = if leb_ℤ abs_ms now then passed else lasting (abs_ms -ℤ now)

unfoldable pub due_of : SetOptions → ℤ → Due
due_of o now = elim o.mode [
  | no_expiry ↦ lasting (pos 0)
  | ex ↦
      if leb_ℤ o.raw (pos 0) || ltb_ℤ max_seconds o.raw
      then invalid
      else lasting (thousandfold o.raw)
  | px ↦ if leb_ℤ o.raw (pos 0) then invalid else lasting o.raw
  | exat ↦
      if ltb_ℤ o.raw (pos 0)
      then invalid
      else absolute (if ltb_ℤ max_seconds o.raw then max_ms else thousandfold o.raw) now
  | pxat ↦ if ltb_ℤ o.raw (pos 0) then invalid else absolute o.raw now
]

abbrev pub condition_of : SetOptions → SetCondition
condition_of o = if o.nx then only_if_absent else if o.xx then only_if_exists else unconditional

-- `get_string().value_or("")`
abbrev pub text_or_empty : CacheObject → Bytes
text_or_empty v = when_some (get_string v) [] (λ text. text)

abbrev pub old_value : Option CacheObject → Bytes
old_value none = encode_nil
old_value (some v) = encode_bulk_string (text_or_empty v)

abbrev pub is_non_string : Option CacheObject → Bool
is_non_string none = false
is_non_string (some v) = not (is_some (get_string v))

module _ (env : Setting) where
  -- The time has passed: the key is deleted, if the conditions allow it.
  unfoldable pub delete_instead : Storage → Bytes → SetOptions → ℤ → Storage × Bytes
  delete_instead s key o now =
      let (s', cur) = get env s key now in
      if o.nx && is_some cur || o.xx && not (is_some cur)
      then (s', encode_nil)
      else ((del env s' key).0, (if o.want_get then old_value cur else encode_ok))

  unfoldable pub store_value : Storage → Bytes → Bytes → SetOptions → ℤ → ℤ → Storage × Bytes
  store_value s key val o ttl_ms now =
      let (s', applied, previous) =
        set_conditional env s key (of_string val) (condition_of o)
          (if o.keep_ttl then pos 0 else ttl_ms) o.keep_ttl now in
      (
        s',
        (if o.want_get
            then (if applied then old_value previous else encode_nil)
            else (if applied then encode_ok else encode_nil)),
      )

  unfoldable pub set_due : Storage → Bytes → Bytes → SetOptions → Due → ℤ → Storage × Bytes
  unfolding delete_instead store_value
  set_due s key val o invalid now =
      (s, encode_error (codes "ERR invalid expire time in 'set' command"))
  set_due s key val o passed now =
      (let (s', cur) = (if o.want_get then get env s key now else (s, none)) in
        if is_non_string cur then (s', wrong_type) else delete_instead s' key o now)
  set_due s key val o (lasting ttl_ms) now =
      (let (s', cur) = (if o.want_get then get env s key now else (s, none)) in
        if is_non_string cur then (s', wrong_type) else store_value s' key val o ttl_ms now)

  unfoldable pub set_parsed : Storage → Bytes → Bytes → Parsed → ℤ → Storage × Bytes
  unfolding set_due
  set_parsed s key val (rejected reply) now = (s, reply)
  set_parsed s key val (accepted o) now =
      if o.nx && o.want_get then (s, syntax_error) else set_due s key val o (due_of o now) now

  unfoldable pub set_command : Storage → List Bytes → ℤ → Storage × Bytes
  unfolding set_parsed
  set_command s (name ∷ key ∷ val ∷ options) now =
      set_parsed s key val (parse_options options no_options) now
  set_command s args now = (s, wrong_arguments "set")
