-- ===== src/Tests/Options.antt =====
-- The daemon's options and its command line interface.
use Prim.Native.String.{String}
use text.Mathlib.Text.{◌==◌ as str_eq}
use location_service.Base.{◌≡◌, refl, Bool, true, ◌||◌, some, [], ◌∷◌, ◌++◌}
use location_service.Settings.{ServiceState}
use location_service.Daemon.Options.{Text, equals, add_option, put}
use location_service.Daemon.Format.{key_of, add_option-key_of}
use location_service.Daemon.Cli
use location_service.Daemon.Cli.{Property, Remote, Configuration}
use location_service.Daemon.Adjust.{told, target, is_right, main-is_right}

-- `gps::Provider`, `name` and `a`
abbrev gps_provider : Text
gps_provider = 103 ∷ 112 ∷ 115 ∷ 58 ∷ 58 ∷ 80 ∷ []

abbrev name : Text
name = 110 ∷ 97 ∷ 109 ∷ 101 ∷ []

add_option-key_of_example :
    add_option gps_provider (key_of gps_provider name ++ (equals ∷ 97 ∷ [])) []
    ≡ some ((name, 97 ∷ []) ∷ [])
unfolding put
add_option-key_of_example =
    add_option-key_of 103 (112 ∷ 115 ∷ 58 ∷ 58 ∷ 80 ∷ []) name (97 ∷ []) [] refl refl refl

-- A service that refuses to be set offline.
abbrev stubborn : Remote Bool Bool
stubborn = record {
  get_state = λ s. ServiceState.enabled;
  get_flag = λ p s. s;
  set_flag = λ p flag s. flag || s;
  get_vehicles = λ s. s;
}

abbrev read_flag : String → Bool → Bool
read_flag text flag = str_eq text "true"

main-is_right_example :
    let o =
      Cli.main stubborn read_flag true
        (record { property = Property.state; command = Cli.Command.set; new_value = "false" })
        true in
    (o.after ≡ told stubborn read_flag true (target Property.state) "false" true)
    × (is_right stubborn read_flag true (target Property.state) "false" true o ≡ true)
main-is_right_example = main-is_right stubborn read_flag true Property.state "false" true
