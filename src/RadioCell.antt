-- ===== src/RadioCell.antt =====
-- radio_cell.h and cached_radio_cell.cpp: the cell that a modem is connected to, as it is kept up to date
-- from the property changes that ofono reports.
pub mod Bounded
pub mod Events
pub mod Validity
pub mod Switch
pub mod Stale
use Prim.Native.String.{String}
use text.Mathlib.Text.{◌==◌ as str_eq}
use location_service.Base.{
  ℕ, suc, ◌+◌, Bool, true, false, ◌&&◌, ◌||◌, Option, none, some, List, [], ◌∷◌, if◌then◌else◌,
}
use location_service.Base.Int.{ℤ}
use location_service.Settings.{find}
use Bounded.{
  Bounds, country_or_network, area, gsm_id, wide_id, physical, signal, is_valid, default_value, set,
  reset, from_percent,
}

-- `RadioCell::Type`
pub data CellType : Type 0 where
  unknown gsm umts lte : CellType

abbrev pub is_umts : CellType → Bool
is_umts umts = true
is_umts unknown = false
is_umts gsm = false
is_umts lte = false

abbrev pub is_unknown : CellType → Bool
is_unknown unknown = true
is_unknown umts = false
is_unknown gsm = false
is_unknown lte = false

abbrev pub same_type : CellType → CellType → Bool
same_type unknown unknown = true
same_type gsm gsm = true
same_type umts umts = true
same_type lte lte = true
same_type _ _ = false

-- `CachedRadioCell::Detail`, a union: the six integers that it keeps. `Gsm` and `Umts` are the first five,
-- `Lte` is all six, with its `physical_id` where the other two have their strength.
pub record Detail : Type 0 where
  pub mobile_country_code : ℤ
  pub mobile_network_code : ℤ
  pub location_area_code : ℤ
  pub id : ℤ
  pub strength_or_physical_id : ℤ
  pub lte_strength : ℤ

abbrev pub id_bounds : CellType → Bounds
id_bounds gsm = gsm_id
id_bounds umts = wide_id
id_bounds lte = wide_id
id_bounds unknown = wide_id

-- A `CachedRadioCell`: `needed` and `valid` are members of `cell_change_heuristics`, `timer` says that the
-- invalidation timer has been started and has not yet expired, `changes` counts the calls of `on_changed`.
pub record Cell : Type 0 where
  pub radio_type : CellType
  pub detail : Detail
  pub roaming : Bool
  pub needed : Bool
  pub valid : Bool
  pub timer : Bool
  pub changes : ℕ

-- `is_gsm_valid`, `is_umts_valid`
unfoldable pub is_narrow_valid : Bounds → Detail → Bool
is_narrow_valid ids d =
    is_valid country_or_network d.mobile_country_code
    && (is_valid country_or_network d.mobile_network_code
        && (is_valid area d.location_area_code
            && (is_valid ids d.id && is_valid signal d.strength_or_physical_id)))

unfoldable pub is_lte_valid : Detail → Bool
is_lte_valid d =
    is_valid country_or_network d.mobile_country_code
    && (is_valid country_or_network d.mobile_network_code
        && (is_valid area d.location_area_code
            && (is_valid wide_id d.id
                && (is_valid physical d.strength_or_physical_id
                    && is_valid signal d.lte_strength))))

unfoldable pub is_cell_details_valid : CellType → Detail → Bool
is_cell_details_valid unknown d = false
is_cell_details_valid gsm d = is_narrow_valid gsm_id d
is_cell_details_valid umts d = is_narrow_valid wide_id d
is_cell_details_valid lte d = is_lte_valid d

-- `execute_cell_change_heuristics_if_appropriate`; the first argument is the global
-- `also_apply_cell_change_heuristics_to_gsm_cells`. Starting the timer cancels the wait before it.
unfoldable pub execute_heuristics : Bool → Cell → Cell
execute_heuristics also_gsm c =
    if c.needed && (is_umts c.radio_type || also_gsm)
    then (record c { timer = true; valid = is_cell_details_valid c.radio_type c.detail })
    else c

-- The timer's callback.
unfoldable pub timer_expired : Cell → Cell
timer_expired c = if c.timer then (record c { timer = false; valid = false }) else c

-- `if (cell_change_heuristics.valid.get()) on_changed();`
unfoldable pub notify : Cell → Cell
notify c = if c.valid then (record c { changes = suc c.changes }) else c

-- `type_lut`
abbrev pub type_lut : List (String × CellType)
type_lut =
    ("gsm", gsm)
    ∷ ("lte", lte)
    ∷ ("umts", umts)
    ∷ ("edge", gsm)
    ∷ ("hspa", umts)
    ∷ ("", unknown)
    ∷ []

-- The switch from one type to another: the three codes stay, in the same place of the union.
unfoldable pub to_narrow : Detail → Detail
to_narrow d = record d { id = reset wide_id; strength_or_physical_id = reset signal }

unfoldable pub to_lte : Detail → Detail
to_lte d = record d { id = reset wide_id; lte_strength = reset signal }

unfoldable pub convert : CellType → CellType → Detail → Detail
convert unknown _ d = d
convert gsm umts d = to_narrow d
convert gsm lte d = to_lte d
convert umts gsm d = to_narrow d
convert umts lte d = to_lte d
convert lte gsm d = to_narrow d
convert lte umts d = to_narrow d
convert _ _ d = d

unfoldable pub change_type : Bool → CellType → Cell → Cell
change_type also_gsm t c =
    if is_unknown t || same_type c.radio_type t
    then c
    else execute_heuristics also_gsm
        (notify (record c { radio_type = t; detail = convert c.radio_type t c.detail }))

unfoldable pub on_technology : Bool → Option CellType → Cell → Cell
on_technology also_gsm none c = c
on_technology also_gsm (some t) c = change_type also_gsm t c

-- A code that is set: nothing is done to a cell of an unknown type, and `none` is the exception.
unfoldable pub set_code : CellType → Bounds → ℤ → ℤ → Option ℤ
set_code unknown b value old = some old
set_code gsm b value old = set b value
set_code umts b value old = set b value
set_code lte b value old = set b value

unfoldable pub on_identity : Bool → Option Detail → Cell → Option Cell
on_identity also_gsm none c = none
on_identity also_gsm (some d) c =
    some (execute_heuristics also_gsm (notify (record c { detail = d })))

unfoldable pub set_strength : CellType → ℤ → Detail → Detail
set_strength unknown value d = d
set_strength gsm value d = record d { strength_or_physical_id = from_percent value }
set_strength umts value d = record d { strength_or_physical_id = from_percent value }
set_strength lte value d = record d { lte_strength = from_percent value }
