-- ===== src/Base/Config.antt =====
-- src/base/config.h, config.cpp: Config. A file is its content, if it can be opened; an observer is a
-- number, and the calls of onConfigChange come back as a list.
pub mod Read
use concurrent_cache.Prelude.{
  ℕ, suc, ◌+◌, ◌-◌, ◌^◌, Bool, true, false, ◌&&◌, ◌||◌, Option, none, some, List, [], ◌∷◌, ◌++◌,
  ◌==◌, leb, if◌then◌else◌, take, drop, when_some, ℤ, pos, negsuc, leb_ℤ,
}
use concurrent_cache.Text.{Bytes, codes, str_eq, index_of}
use concurrent_cache.Text.Stoll.{is_space, skip_space, stoll}
use concurrent_cache.Table.{Table, find, contains, insert_or_assign}

pub record Config : Type 0 where
  pub config_file : Bytes
  pub config_data : Table Bytes
  pub observers : Table (List ℕ)

-- The lines that std::getline reads.
abbrev pub join : ℕ → List Bytes → List Bytes
join c [] = (c ∷ []) ∷ []
join c (line ∷ lines) = (c ∷ line) ∷ lines

unfoldable pub lines_of : Bytes → List Bytes
lines_of [] = []
lines_of (c ∷ s) = let rest = lines_of s in if c == b'\n' then [] ∷ rest else join c rest

abbrev pub keep_unless_space : ℕ → Bytes → Bytes
keep_unless_space c [] = if is_space c then [] else c ∷ []
keep_unless_space c (d ∷ s) = c ∷ d ∷ s

unfoldable pub trim_end : Bytes → Bytes
trim_end [] = []
trim_end (c ∷ s) = keep_unless_space c (trim_end s)

unfoldable pub trim : Bytes → Bytes
unfolding trim_end
trim s = trim_end (skip_space s)

abbrev pub is_skipped : Bytes → Bool
is_skipped [] = true
is_skipped (c ∷ line) = c == b'#'

abbrev pub assign_at : Option ℕ → Bytes → Table Bytes → Table Bytes
assign_at none line table = table
assign_at (some at) line table =
    insert_or_assign (trim (take at line)) (trim (drop (at + 1) line)) table

unfoldable pub read_line : Bytes → Table Bytes → Table Bytes
read_line line table = if is_skipped line then table else assign_at (index_of b'=' line) line table

unfoldable pub read_lines : List Bytes → Table Bytes → Table Bytes
unfolding read_line
read_lines [] table = table
read_lines (line ∷ lines) table = read_lines lines (read_line line table)

-- Whether the file could be opened comes with the table.
unfoldable pub load_internal : Option Bytes → Table Bytes → Table Bytes × Bool
unfolding lines_of read_lines
load_internal none table = (table, false)
load_internal (some content) table = (read_lines (lines_of content) table, true)

abbrev pub with_default : Bytes → Bytes → Table Bytes → Table Bytes
with_default key value table =
    if contains key table then table else insert_or_assign key value table

unfoldable pub fill_defaults : Table Bytes → Table Bytes
fill_defaults table = with_default (codes "log_max_files") (codes "5") (
    with_default (codes "log_max_size") (codes "104857600") (
      with_default (codes "log_file") (codes "./logs/concurrentcache.log")
        (with_default (codes "log_level") (codes "info") table)))

unfoldable pub load : Config → Bytes → Option Bytes → Config × Bool
unfolding load_internal fill_defaults
load c filename file =
    let (read, loaded) = load_internal file [] in
    (record c { config_file = filename; config_data = fill_defaults read }, loaded)

abbrev pub calls_of : Bytes → Bytes → List ℕ → List (ℕ × Bytes × Bytes)
calls_of key value [] = []
calls_of key value (o ∷ os) = (o, key, value) ∷ calls_of key value os

unfoldable pub notify_all : Table (List ℕ) → Table Bytes → List (ℕ × Bytes × Bytes)
notify_all observers [] = []
notify_all observers ((key, value) ∷ table) =
    when_some (find key observers) [] (calls_of key value) ++ notify_all observers table

unfoldable pub reload : Config → Option Bytes → Config × List (ℕ × Bytes × Bytes)
unfolding load_internal fill_defaults notify_all
reload c file =
    let (read, loaded) = load_internal file [] in
    if loaded
    then (
      record c { config_data = fill_defaults read },
      notify_all c.observers (fill_defaults read),
    )
    else (c, [])

unfoldable pub get_string : Config → Bytes → Bytes → Bytes
get_string c key default_value = when_some (find key c.config_data) default_value (λ value. value)

-- std::stoi: std::stoll in the range of an int.
abbrev pub int_of : Option (ℤ × Bytes) → ℤ → ℤ
int_of none default_value = default_value
int_of (some (v, behind)) default_value =
    if leb_ℤ (negsuc (2 ^ 31 - 1)) v && leb_ℤ v (pos (2 ^ 31 - 1)) then v else default_value

unfoldable pub get_int : Config → Bytes → ℤ → ℤ
get_int c key default_value =
    when_some (find key c.config_data) default_value (λ value. int_of (stoll value) default_value)

unfoldable pub get_bool : Config → Bytes → Bool → Bool
get_bool c key default_value =
    when_some (find key c.config_data) default_value
      (λ value. str_eq value (codes "true") || str_eq value (codes "1"))

unfoldable pub add_observer : Config → Bytes → ℕ → Config
add_observer c key observer = record c {
  observers =
      insert_or_assign key (when_some (find key c.observers) [] (λ os. os) ++ observer ∷ [])
        c.observers;
}

unfoldable pub without : ℕ → List ℕ → List ℕ
without o [] = []
without o (p ∷ ps) = let rest = without o ps in if p == o then rest else p ∷ rest

unfoldable pub remove_observer : Config → Bytes → ℕ → Config
unfolding without
remove_observer c key observer =
    when_some (find key c.observers) c
      (λ os. record c { observers = insert_or_assign key (without observer os) c.observers })

unfoldable pub notify_observers : Config → Bytes → List (ℕ × Bytes × Bytes)
notify_observers c key =
    when_some (find key c.observers) []
      (λ os. when_some (find key c.config_data) [] (λ value. calls_of key value os))
