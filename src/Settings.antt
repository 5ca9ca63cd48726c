-- ===== src/Settings.antt =====
-- The text of the engine's enumerations and the settings that keep them: engine.cpp,
-- satellite_based_positioning_state.cpp, wifi_and_cell_reporting_state.cpp, service/state.cpp,
-- settings.h, settings.cpp and boost_ptree_settings.cpp.
pub mod RoundTrip
use Prim.Native.Char.{Char, code}
use Prim.Native.String.{String}
use text.Mathlib.Text.{◌==◌ as str_eq}
use location_service.Base.{
  ℕ, ◌<◌, ltb, leb, ◌≡◌, Bool, true, false, not, ◌&&◌, ◌||◌, ◌==◌, Option, none, some, List, [],
  ◌∷◌, if◌then◌else◌,
}
use location_service.Engine.State.{Status, SatelliteState, ReportingState}

-- `service::State`
pub data ServiceState : Type 0 where
  disabled enabled active : ServiceState

-- `in >> s` for a text: the first word.
abbrev pub is_space : Char → Bool
is_space c = code c == 32 || leb 9 (code c) && leb (code c) 13

unfoldable pub skip_spaces : String → String
skip_spaces String.[] = String.[]
skip_spaces (String.◌∷◌ c s) =
    let rest = skip_spaces s in if is_space c then rest else String.◌∷◌ c s

unfoldable pub take_word : String → String
take_word String.[] = String.[]
take_word (String.◌∷◌ c s) =
    let rest = take_word s in if is_space c then String.[] else String.◌∷◌ c rest

unfoldable pub read_word : String → String
unfolding skip_spaces take_word
read_word s = take_word (skip_spaces s)

-- A table of words.
unfoldable pub find {ℓ} : {A : Type ℓ} → String → List (String × A) → Option A
find s [] = none
find s ((t, a) ∷ rest) = if str_eq s t then some a else find s rest

-- How a value of an enumeration is written to a stream, and the table by which it is read.
pub record Text (A : Type 0) : Type 0 where
  pub print : A → String
  pub words : List (String × A)

-- `operator>>`: `none` is the exception for a word that is not in the table.
unfoldable pub parse : {A : Type 0} → Text A → String → Option A
unfolding find read_word
parse t s = find (read_word s) t.words

abbrev pub status_text : Text Status
status_text = record {
  print = elim [
    | Status.off ↦ "Engine::Status::off"
    | Status.on ↦ "Engine::Status::on"
    | Status.active ↦ "Engine::Status::active"
  ];
  words =
      ("Engine::Status::off", Status.off)
      ∷ ("Engine::Status::on", Status.on)
      ∷ ("Engine::Status::active", Status.active)
      ∷ [];
}

abbrev pub satellite_text : Text SatelliteState
satellite_text = record {
  print = elim [
    | SatelliteState.off ↦ "SatelliteBasedPositioningState::off"
    | SatelliteState.on ↦ "SatelliteBasedPositioningState::on"
  ];
  words =
      ("SatelliteBasedPositioningState::off", SatelliteState.off)
      ∷ ("SatelliteBasedPositioningState::on", SatelliteState.on)
      ∷ [];
}

abbrev pub service_state_text : Text ServiceState
service_state_text = record {
  print = elim [
    | ServiceState.disabled ↦ "disabled"
    | ServiceState.enabled ↦ "enabled"
    | ServiceState.active ↦ "active"
  ];
  words =
      ("disabled", ServiceState.disabled)
      ∷ ("enabled", ServiceState.enabled)
      ∷ ("active", ServiceState.active)
      ∷ [];
}

abbrev pub reporting_text : Text ReportingState
reporting_text = record {
  print = elim [
    | ReportingState.off ↦ "WifiAndCellIdReportingState::off"
    | ReportingState.on ↦ "WifiAndCellIdReportingState::on"
  ];
  words =
      ("WifiAndCellIdReportingState::off", ReportingState.off)
      ∷ ("WifiAndCellIdReportingState::on", ReportingState.on)
      ∷ [];
}

-- `Engine::Configuration::Keys`: where the engine keeps its state and that of the reports.
abbrev pub engine_state_key : String
engine_state_key = "Engine::State"

abbrev pub reporting_state_key : String
reporting_state_key = "Engine::WifiAndCellIdReportingState"

-- A key that `boost::property_tree` does not read as a path: one without a dot.
abbrev pub is_plain : String → Bool
is_plain String.[] = true
is_plain (String.◌∷◌ c s) = not (code c == b'.') && is_plain s

-- `boost::property_tree::ptree`, which is not part of this repository: `count`, `get` (`none` where it
-- throws) and `put` (`none` for `ptree_bad_data`), and what is documented of them for plain keys.
pub record Tree : Type 1 where
  pub T : Type 0
  pub count : T → String → ℕ
  pub get : T → String → Option String
  pub put : T → String → String → Option T
  pub get_put : (t u : T) (k v : String) → is_plain k ≡ true → put t k v ≡ some u → get u k ≡ some v
  pub count_put : (t u : T) (k v : String) → is_plain k ≡ true → put t k v ≡ some u → 0 < count u k

module _ (tree : Tree) where
  -- `BoostPtreeSettings::has_value_for_key`
  unfoldable pub has_value_for_key : tree.T → String → Bool
  has_value_for_key t key = ltb 0 (tree.count t key)

  -- `BoostPtreeSettings::get_string_for_key_or_throw`; `none` is `NoValueForKey`.
  unfoldable pub get_string_for_key_or_throw : tree.T → String → Option String
  get_string_for_key_or_throw t key = tree.get t key

  -- `BoostPtreeSettings::set_string_for_key`: the tree afterwards, and whether it was written.
  unfoldable pub set_string_for_key : tree.T → String → String → tree.T × Bool
  set_string_for_key t key value = elim (tree.put t key value) [
    | none ↦ (t, false)
    | some u ↦ (u, true)
  ]

  -- `Settings::get_string_for_key`
  unfoldable pub get_string_for_key : tree.T → String → String → Option String
  unfolding has_value_for_key get_string_for_key_or_throw
  get_string_for_key t key default_value =
      if not (has_value_for_key t key)
      then some default_value
      else get_string_for_key_or_throw t key

  module _ {A : Type 0} (text : Text A) where
    -- `Settings::get_enum_for_key`; `none` is an exception.
    unfoldable pub get_enum_for_key : tree.T → String → A → Option A
    unfolding get_string_for_key
    get_enum_for_key t key default_value =
        elim (get_string_for_key t key (text.print default_value)) [
          | none ↦ none
          | some s ↦ parse text s
        ]

    -- `Settings::get_enum_for_key_or_throw`
    unfoldable pub get_enum_for_key_or_throw : tree.T → String → Option A
    unfolding get_string_for_key_or_throw
    get_enum_for_key_or_throw t key = elim (get_string_for_key_or_throw t key) [
      | none ↦ none
      | some s ↦ parse text s
    ]

    -- `Settings::set_enum_for_key`
    unfoldable pub set_enum_for_key : tree.T → String → A → tree.T × Bool
    unfolding set_string_for_key
    set_enum_for_key t key value = set_string_for_key t key (text.print value)
