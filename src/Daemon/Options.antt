-- ===== src/Daemon/Options.antt =====
-- `Daemon::Configuration::from_command_line_args`: the providers, and the options for each of them.
use location_service.Base.{
  ℕ, zero, suc, ◌==◌, Bool, true, false, not, ◌&&◌, ◌||◌, Option, none, some, List, [], ◌∷◌,
  if◌then◌else◌, length, contains,
}
use location_service.RadioCell.Events.{◌>>=◌, map_option}

abbrev pub Text : Type 0
Text = List ℕ

-- The codes of '=', '-' and ':'.
abbrev pub equals : ℕ
equals = 61

abbrev pub option_marker : Text
option_marker = 45 ∷ 45 ∷ []

abbrev pub scope_separator : Text
scope_separator = 58 ∷ 58 ∷ []

-- `std::getline(in, line, '=')`: the line, and what is left in the stream.
unfoldable pub getline : Text → Text × Text
getline [] = ([], [])
getline (c ∷ cs) = let rest = getline cs in if c == equals then ([], cs) else (c ∷ rest.0, rest.1)

abbrev pub is_prefix : Text → Text → Bool
is_prefix [] s = true
is_prefix (c ∷ cs) [] = false
is_prefix (c ∷ cs) (d ∷ ds) = let rest = is_prefix cs ds in c == d && rest

-- `s.find(part) != npos`
unfoldable pub find_text : Text → Text → Bool
find_text part [] = is_prefix part []
find_text part (c ∷ cs) = let later = find_text part cs in is_prefix part (c ∷ cs) || later

-- `s.erase(s.find_first_of(set), count)`: from the first character that is one of the set's; where there is
-- none, `erase` throws.
unfoldable pub drop_text : ℕ → Text → Text
drop_text zero s = s
drop_text (suc n) [] = []
drop_text (suc n) (c ∷ cs) = drop_text n cs

unfoldable pub erase_first_of : Text → ℕ → Text → Option Text
unfolding drop_text
erase_first_of set count [] = none
erase_first_of set count (c ∷ cs) =
    let later = erase_first_of set count cs in
    if contains set c then some (drop_text count (c ∷ cs)) else map_option (λ s. c ∷ s) later

-- The key of an option for a provider, without the marker, the provider and the separator.
unfoldable pub strip : Text → Text → Option Text
unfolding erase_first_of
strip provider key =
    erase_first_of option_marker 2 key
    >>= (λ k. erase_first_of provider (length provider) k >>= erase_first_of scope_separator 2)

abbrev pub same_text : Text → Text → Bool
same_text [] [] = true
same_text [] (d ∷ ds) = false
same_text (c ∷ cs) [] = false
same_text (c ∷ cs) (d ∷ ds) = let rest = same_text cs ds in c == d && rest

-- `put` of a property tree.
unfoldable pub put : Text → Text → List (Text × Text) → List (Text × Text)
put key value [] = (key, value) ∷ []
put key value ((k, v) ∷ rest) =
    let later = put key value rest in if same_text k key then (k, value) ∷ rest else (k, v) ∷ later

-- One unrecognised option, for one provider, once its first line is read: `none` is the exception.
unfoldable pub add_line : Text → Text × Text → List (Text × Text) → Option (List (Text × Text))
unfolding getline find_text strip put
add_line provider line options =
    if find_text provider line.0
    then map_option (λ key. put key (getline line.1).0 options) (strip provider line.0)
    else some options

unfoldable pub add_option : Text → Text → List (Text × Text) → Option (List (Text × Text))
unfolding getline add_line
add_option provider s options = add_line provider (getline s) options

unfoldable pub add_options : Text → List Text → List (Text × Text) → Option (List (Text × Text))
unfolding add_option
add_options provider [] options = some options
add_options provider (s ∷ rest) options =
    add_option provider s options >>= add_options provider rest

unfoldable pub provider_options : List Text → List Text → Option (List (Text × List (Text × Text)))
unfolding add_options
provider_options unrecognized [] = some []
provider_options unrecognized (provider ∷ rest) = do
  options ← add_options provider unrecognized []
  others ← provider_options unrecognized rest
  some ((provider, options) ∷ others)

-- The options that the daemon knows, as the library for them has parsed the command line.
pub record Parsed : Type 0 where
  pub testing : Bool
  pub providers : List Text
  pub unrecognized : List Text

pub record Configuration : Type 0 where
  pub providers : List Text
  pub provider_options : List (Text × List (Text × Text))

abbrev is_empty : List Text → Bool
is_empty [] = true
is_empty (p ∷ ps) = false

-- An exception is `none`, and `none` is what cannot be parsed.
unfoldable pub from_command_line_args : Option Parsed → Option Configuration
unfolding provider_options
from_command_line_args none = none
from_command_line_args (some p) =
    if not p.testing && is_empty p.providers
    then none
    else map_option (λ o. record { providers = p.providers; provider_options = o })
        (provider_options p.unrecognized p.providers)
