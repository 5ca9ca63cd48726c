-- ===== src/Daemon/Adjust.antt =====
-- What setting a property from the command line does.
use Prim.Native.String.{String}
use location_service.Base.{◌≡◌, refl, Bool, true, false, not, Option, none, some, arith}
use location_service.Settings.{find}
use location_service.Daemon.Cli.{
  Property, state, is_online, does_satellite_based_positioning, does_report_wifi_and_cell_ids,
  visible_space_vehicles, set, read_property, print_property, Remote, Outcome, same, on_flag,
  on_property, main,
}

abbrev pub is_known : Property → Bool
is_known Property.unknown = false
is_known _ = true

-- The text of every property but the unknown one is read back.
read_property-print_property :
    (p : Property) → is_known p ≡ true → read_property (print_property p) ≡ some p
unfolding read_property print_property find
read_property-print_property Property.unknown h = ground arith
read_property-print_property state h = refl
read_property-print_property is_online h = refl
read_property-print_property does_satellite_based_positioning h = refl
read_property-print_property does_report_wifi_and_cell_ids h = refl
read_property-print_property visible_space_vehicles h = refl

-- The property that a `set` of each property changes: that of the state changes whether the service is online.
abbrev pub target : Property → Option Property
target state = some is_online
target is_online = some is_online
target does_satellite_based_positioning = some does_satellite_based_positioning
target does_report_wifi_and_cell_ids = some does_report_wifi_and_cell_ids
target visible_space_vehicles = none
target Property.unknown = none

same_lem : (a b : Bool) → same a b ≡ true → a ≡ b
same_lem a b h = ground arith

module _ {S Svs : Type 0} (service : Remote S Svs) (read_flag : String → Bool → Bool)
    (tests_succeed : Bool) where
  -- The outcome of a `set` is right: it fails and changes nothing for a property that cannot be set; otherwise
  -- the service is told the new value, and the command succeeds exactly if the service then has it.
  unfoldable pub is_right : Option Property → String → S → Outcome S Svs → Bool
  is_right none value s o = not o.success
  is_right (some p) value s o =
      same o.success (same (service.get_flag p o.after) (read_flag value (service.get_flag p s)))

  on_flag-is_right :
      (p : Property) (value : String) (s : S)
      → is_right (some p) value s (on_flag service read_flag tests_succeed p set value s) ≡ true
  unfolding on_flag is_right
  on_flag-is_right p value s = ground arith

  unfoldable pub told : Option Property → String → S → S
  told none value s = s
  told (some p) value s = service.set_flag p (read_flag value (service.get_flag p s)) s

  on_flag-told :
      (p : Property) (value : String) (s : S)
      → (on_flag service read_flag tests_succeed p set value s).after ≡ told (some p) value s
  unfolding on_flag told
  on_flag-told p value s = ground arith

  -- A `set` of a property tells the service the new value of exactly one property, which is that itself, but is
  -- whether the service is online for the state, and succeeds exactly if the service then has the value. For
  -- the visible space vehicles and an unknown property it changes nothing and fails.
  pub main-is_right :
      (p : Property) (value : String) (s : S)
      → let o =
          main service read_flag tests_succeed
            (record { property = p; command = set; new_value = value })
            s in
        (o.after ≡ told (target p) value s) × (is_right (target p) value s o ≡ true)
  unfolding main on_property is_right told
  main-is_right Property.unknown value s = (refl, refl)
  main-is_right state value s = (on_flag-told is_online value s, on_flag-is_right is_online value s)
  main-is_right is_online value s =
      (on_flag-told is_online value s, on_flag-is_right is_online value s)
  main-is_right does_satellite_based_positioning value s = (
    on_flag-told does_satellite_based_positioning value s,
    on_flag-is_right does_satellite_based_positioning value s,
  )
  main-is_right does_report_wifi_and_cell_ids value s = (
    on_flag-told does_report_wifi_and_cell_ids value s,
    on_flag-is_right does_report_wifi_and_cell_ids value s,
  )
  main-is_right visible_space_vehicles value s = (refl, refl)
