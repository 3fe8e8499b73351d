-- ===== src/Base/Config/Read.antt =====
-- A configuration file, as it is read back.
use concurrent_cache.Prelude.{
  ℕ, suc, ◌+◌, ◌≡◌, refl, sym, ap, ◌∙◌, Bool, true, false, Option, none, some, [], ◌∷◌, ◌++◌,
  if◌then◌else◌, drop, length, when_some, arith, append_assoc, take-length-append, drop,
}
use concurrent_cache.Text.{Bytes, codes, str_eq, str_eq_iff, Lacks, index_of-append}
use concurrent_cache.Table.{
  Table, find, insert_or_assign, find-insert_or_assign, contains-find, find-contains,
}
use concurrent_cache.Base.Config.{
  Config, lines_of, trim, is_skipped, read_line, read_lines, load_internal, with_default,
  fill_defaults, load, get_string,
}

-- A file with one line `key=value` for each setting.
unfoldable pub file_of : Table Bytes → Bytes
file_of [] = []
file_of ((key, value) ∷ settings) = key ++ b'=' ∷ (value ++ b'\n' ∷ file_of settings)

-- The key is no comment and holds no `=`, neither holds a line end, and both stand without spaces
-- around them.
abbrev pub IsSetting : Bytes × Bytes → Type 0
IsSetting (key, value) =
    Lacks b'=' key
    × Lacks b'\n' (key ++ b'=' ∷ value)
    × (is_skipped key ≡ false)
    × (trim key ≡ key)
    × (trim value ≡ value)

abbrev pub AllSettings : Table Bytes → Type 0
AllSettings [] = Unit {0}
AllSettings (setting ∷ settings) = IsSetting setting × AllSettings settings

-- The value that the last line for the key gives.
unfoldable pub last_value : Bytes → Table Bytes → Option Bytes → Option Bytes
last_value key [] found = found
last_value key ((k, value) ∷ settings) found =
    last_value key settings (if str_eq k key then some value else found)

-- The values of the keys that must not be missing.
unfoldable pub default_of : Bytes → Option Bytes
default_of key =
    if str_eq (codes "log_level") key
    then some (codes "info")
    else if str_eq (codes "log_file") key
    then some (codes "./logs/concurrentcache.log")
    else if str_eq (codes "log_max_size") key
    then some (codes "104857600")
    else if str_eq (codes "log_max_files") key
    then some (codes "5")
    else none

lines_of-append :
    (line rest : Bytes) → Lacks b'\n' line → lines_of (line ++ b'\n' ∷ rest) ≡ line ∷ lines_of rest
unfolding lines_of
lines_of-append [] rest h = refl
lines_of-append (c ∷ line) rest (ne, h) = ground (arith, lines_of-append line rest h)

skipped_append : (key s : Bytes) → is_skipped key ≡ false → is_skipped (key ++ s) ≡ false
skipped_append [] s h = cc
skipped_append (c ∷ key) s h = h

value_behind : (key value : Bytes) → drop (length key + 1) (key ++ b'=' ∷ value) ≡ value
value_behind [] value = refl
value_behind (c ∷ key) value =
    ap (λ n. drop n (c ∷ (key ++ b'=' ∷ value))) (shift (length key)) ∙ value_behind key value
  where
    shift : (n : ℕ) → suc n + 1 ≡ suc (n + 1)
    shift n = omega arith

read_line-setting :
    (key value : Bytes) (table : Table Bytes)
    → IsSetting (key, value)
    → read_line (key ++ b'=' ∷ value) table ≡ insert_or_assign key value table
unfolding read_line
read_line-setting key value table (no_sign, no_end, not_skipped, k, v) =
    rw
      (
        skipped_append key (b'=' ∷ value) not_skipped,
        index_of-append b'=' key value no_sign,
        take-length-append key (b'=' ∷ value),
        value_behind key value,
        k,
        v,
      )
      refl

find-read_lines :
    (key : Bytes) (settings table : Table Bytes)
    → AllSettings settings
    → find key (read_lines (lines_of (file_of settings)) table)
      ≡ last_value key settings (find key table)
unfolding read_lines file_of last_value lines_of
find-read_lines key [] table h = refl
find-read_lines key ((k, value) ∷ settings) table (h, hs) =
    rw
      (
        sym (append_assoc k (b'=' ∷ value) (b'\n' ∷ file_of settings)),
        lines_of-append (k ++ b'=' ∷ value) (file_of settings) h.1,
        read_lines,
        read_line-setting k value table h,
      )
      (find-read_lines key settings (insert_or_assign k value table) hs
        ∙ rw (find-insert_or_assign key k value table) refl)

find-with_default :
    (key k value : Bytes) (table : Table Bytes)
    → find key (with_default k value table)
      ≡ when_some (find key table) (if str_eq k key then some value else none) some
find-with_default key k value table = ground (
  arith,
  find-insert_or_assign key k value table,
  contains-find k table,
  find-contains k table,
  str_eq_iff k key,
)

either_default :
    (found : Option Bytes) (a b c d : Bool) (v w x y : Bytes)
    → when_some
        (when_some
          (when_some
            (when_some found (if a then some v else none) some)
            (if b then some w else none)
            some)
          (if c then some x else none)
          some)
        (if d then some y else none)
        some
      ≡ when_some found
          (if a
            then some v
            else if b
            then some w
            else if c
            then some x
            else if d
            then some y
            else none)
          some
either_default none true b c d v w x y = refl
either_default none false true c d v w x y = refl
either_default none false false true d v w x y = refl
either_default none false false false d v w x y = refl
either_default (some u) a b c d v w x y = refl

find-fill_defaults :
    (key : Bytes) (table : Table Bytes)
    → find key (fill_defaults table) ≡ when_some (find key table) (default_of key) some
unfolding fill_defaults default_of
find-fill_defaults key table =
    rw
      (
        find-with_default key (codes "log_max_files") (codes "5") _,
        find-with_default key (codes "log_max_size") (codes "104857600") _,
        find-with_default key (codes "log_file") (codes "./logs/concurrentcache.log") _,
        find-with_default key (codes "log_level") (codes "info") _,
      )
      (either_default (find key table) (str_eq (codes "log_level") key)
        (str_eq (codes "log_file") key) (str_eq (codes "log_max_size") key)
        (str_eq (codes "log_max_files") key) _ _ _ _)

or_else :
    (found default : Option Bytes) (v : Bytes)
    → when_some (when_some found default some) v (λ w. w)
      ≡ when_some found (when_some default v (λ w. w)) (λ w. w)
or_else none default v = refl
or_else (some u) default v = refl

-- After a file of `key=value` lines has been loaded, each key reads as the value of its last line, or,
-- if it has none, as its built-in default, or else as the caller's default; and the load succeeds.
-- The settings are such that they can be written: a key is no comment and holds no `=`, no line end
-- is in them, and they stand without spaces around them.
pub get_string-load :
    (c : Config) (filename key default_value : Bytes) (settings : Table Bytes)
    → AllSettings settings
    → let (c', loaded) = load c filename (some (file_of settings)) in
      (loaded ≡ true)
      × (get_string c' key default_value
          ≡ when_some
              (last_value key settings none)
              (when_some (default_of key) default_value (λ v. v))
              (λ v. v))
unfolding load get_string load_internal find
get_string-load c filename key default_value settings h = (
  refl,
  rw
      (
        find-fill_defaults key (read_lines (lines_of (file_of settings)) []),
        find-read_lines key settings [] h,
      )
      (or_else (last_value key settings none) (default_of key) default_value),
)
