-- ===== src/Tests/Settings.antt =====
-- src/base/config.cpp at concrete inputs.
use concurrent_cache.Prelude.{◌≡◌, refl, true, none, some, [], ◌∷◌, arith, when_some}
use concurrent_cache.Text.{Bytes, codes}
use concurrent_cache.Text.Stoll.{skip_space}
use concurrent_cache.Table.{Table}
use concurrent_cache.Base.Config.{Config, load, get_string, trim}
use concurrent_cache.Base.Config.Read.{
  file_of, AllSettings, last_value, default_of, get_string-load,
}

abbrev settings : Table Bytes
settings = (codes "p", codes "1") ∷ []

abbrev unset : Config
unset = record { config_file = []; config_data = []; observers = [] }

settings-AllSettings : AllSettings settings
unfolding trim skip_space
settings-AllSettings =
    (((omega arith, tt), (omega arith, (omega arith, (omega arith, tt))), refl, refl, refl), tt)

get_string-load_example :
    let (c', loaded) = load unset (codes "a.conf") (some (file_of settings)) in
    (loaded ≡ true)
    × (get_string c' (codes "p") (codes "0")
        ≡ when_some
            (last_value (codes "p") settings none)
            (when_some (default_of (codes "p")) (codes "0") (λ v. v))
            (λ v. v))
get_string-load_example =
    get_string-load unset (codes "a.conf") (codes "p") (codes "0") settings settings-AllSettings
