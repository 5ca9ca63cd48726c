-- ===== src/Daemon/Cli.antt =====
-- `Daemon::Cli`: the properties of a running service, got and set from the command line.
use Prim.Native.String.{String}
use location_service.Base.{
  Bool, true, false, not, ◌&&◌, Option, none, some, List, [], ◌∷◌, if◌then◌else◌,
}
use location_service.Settings.{ServiceState, find}

-- `Daemon::Cli::Property` and `Daemon::Cli::Command`
pub data Property : Type 0 where
  unknown state is_online does_satellite_based_positioning does_report_wifi_and_cell_ids
        visible_space_vehicles :
      Property

pub data Command : Type 0 where
  unknown get set test : Command

-- `operator>>`: `none` is the exception.
abbrev pub lut : List (String × Property)
lut =
    ("state", state)
    ∷ ("is_online", is_online)
    ∷ ("does_satellite_based_positioning", does_satellite_based_positioning)
    ∷ ("does_report_wifi_and_cell_ids", does_report_wifi_and_cell_ids)
    ∷ ("visible_space_vehicles", visible_space_vehicles)
    ∷ []

unfoldable pub read_property : String → Option Property
unfolding find
read_property text = find text lut

-- `operator<<`
unfoldable pub print_property : Property → String
print_property unknown = "unknown"
print_property state = "state"
print_property is_online = "is_online"
print_property does_satellite_based_positioning = "does_satellite_based_positioning"
print_property does_report_wifi_and_cell_ids = "does_report_wifi_and_cell_ids"
print_property visible_space_vehicles = "visible_space_vehicles"

-- How often each option is given, and the texts of two.
pub record Options : Type 0 where
  pub help : Bool
  pub has_get : Bool
  pub has_set : Bool
  pub has_test : Bool
  pub property : Property
  pub new_value : String

pub record Configuration : Type 0 where
  pub property : Property
  pub command : Command
  pub new_value : String

-- `from_command_line_args`: `none` is what cannot be parsed, and an exception.
unfoldable pub from_command_line_args : Option Options → Option Configuration
from_command_line_args none = none
from_command_line_args (some o) =
    if o.help
    then none
    else if o.has_get && o.has_set
    then none
    else if o.has_get
    then some (record { property = o.property; command = get; new_value = "" })
    else if o.has_set
    then some (record { property = o.property; command = set; new_value = o.new_value })
    else if o.has_test
    then some (record { property = o.property; command = test; new_value = "" })
    else some (record { property = o.property; command = Command.unknown; new_value = "" })

-- The service on the bus, over its state; `Svs` stands for the visible space vehicles.
pub record Remote (S Svs : Type 0) : Type 0 where
  pub get_state : S → ServiceState
  pub get_flag : Property → S → Bool
  pub set_flag : Property → Bool → S → S
  pub get_vehicles : S → Svs

-- What is printed.
pub data Line (Svs : Type 0) : Type 0 where
  service_is : ServiceState → Line Svs
  flag_is : Property → Bool → Line Svs
  adjusting : Property → Line Svs
  failed succeeded : Line Svs
  vehicles_are : Svs → Line Svs
  not_settable unknown_property : Line Svs

-- The lines, whether the exit code is `EXIT_SUCCESS`, and the service after it.
pub record Outcome (S Svs : Type 0) : Type 0 where
  pub lines : List (Line Svs)
  pub success : Bool
  pub after : S

abbrev pub same : Bool → Bool → Bool
same true b = b
same false b = not b

-- `ss >> std::boolalpha >> flag` as a parameter: what the variable holds then, given what it held, and the tests
-- of the runtime.
module _ {S Svs : Type 0} (service : Remote S Svs) (read_flag : String → Bool → Bool)
    (tests_succeed : Bool) where
  -- The cases of the three properties that can be set.
  unfoldable pub on_flag : Property → Command → String → S → Outcome S Svs
  on_flag p get value s = record {
    lines = flag_is p (service.get_flag p s) ∷ [];
    success = true;
    after = s;
  }
  on_flag p set value s =
      let flag = read_flag value (service.get_flag p s) in
      let t = service.set_flag p flag s in
      if same (service.get_flag p t) flag
      then record { lines = adjusting p ∷ succeeded ∷ []; success = true; after = t }
      else record { lines = adjusting p ∷ failed ∷ []; success = false; after = t }
  on_flag p Command.unknown value s = record { lines = []; success = true; after = s }
  on_flag p test value s = record { lines = []; success = true; after = s }

  abbrev pub before : List (Line Svs) → Outcome S Svs → Outcome S Svs
  before [] o = o
  before (l ∷ ls) o = record o { lines = l ∷ o.lines }

  -- The switch: the case of the state has no `break`.
  unfoldable pub on_property : Property → Command → String → S → Outcome S Svs
  unfolding on_flag
  on_property state get value s =
      before (service_is (service.get_state s) ∷ []) (on_flag is_online get value s)
  on_property state c value s = on_flag is_online c value s
  on_property is_online c value s = on_flag is_online c value s
  on_property does_report_wifi_and_cell_ids c value s =
      on_flag does_report_wifi_and_cell_ids c value s
  on_property does_satellite_based_positioning c value s =
      on_flag does_satellite_based_positioning c value s
  on_property visible_space_vehicles get value s = record {
    lines = vehicles_are (service.get_vehicles s) ∷ [];
    success = true;
    after = s;
  }
  on_property visible_space_vehicles set value s = record {
    lines = not_settable ∷ [];
    success = false;
    after = s;
  }
  on_property visible_space_vehicles c value s = record { lines = []; success = true; after = s }
  on_property Property.unknown c value s = record {
    lines = unknown_property ∷ [];
    success = false;
    after = s;
  }

  unfoldable pub main : Configuration → S → Outcome S Svs
  unfolding on_property
  main c s = elim c.command [
    | test ↦ record { lines = []; success = tests_succeed; after = s }
    | _ ↦ on_property c.property c.command c.new_value s
  ]
