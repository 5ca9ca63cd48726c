-- ===== src/RadioCell/Events.antt =====
-- cached_radio_cell.cpp: what is done for each property that changes, and the constructor.
use Prim.Native.String.{String}
use text.Mathlib.Text.{◌==◌ as str_eq}
use location_service.Base.{
  zero, Bool, true, false, not, ◌||◌, Option, none, some, List, [], ◌∷◌, if◌then◌else◌,
}
use location_service.Base.Int.{ℤ}
use location_service.Settings.{find}
use location_service.RadioCell.{
  CellType, Detail, Cell, id_bounds, type_lut, is_unknown, notify, execute_heuristics,
  timer_expired, on_technology, set_code, on_identity, set_strength,
}
use location_service.RadioCell.Bounded.{
  country_or_network, area, set, default_value, from_percent, physical,
}

abbrev pub map_option : {A B : Type 0} → (A → B) → Option A → Option B
map_option f none = none
map_option f (some a) = some (f a)

infixr 20 ◌>>=◌
abbrev pub ◌>>=◌ : {A B : Type 0} → Option A → (A → Option B) → Option B
none >>= f = none
some a >>= f = f a

-- `on_network_registration_property_changed`, by the key of the tuple, and the expiry of the timer. The two
-- codes that ofono reports as a text are the number that is read from it.
pub data Event : Type 0 where
  technology : String → Event
  cell_id : ℤ → Event
  location_area_code : ℤ → Event
  mobile_country_code : ℤ → Event
  mobile_network_code : ℤ → Event
  strength : ℤ → Event
  status : String → Event
  expiry : Event

abbrev with_id : Detail → ℤ → Detail
with_id d v = record d { id = v }

abbrev with_area : Detail → ℤ → Detail
with_area d v = record d { location_area_code = v }

abbrev with_country : Detail → ℤ → Detail
with_country d v = record d { mobile_country_code = v }

abbrev with_network : Detail → ℤ → Detail
with_network d v = record d { mobile_network_code = v }

unfoldable pub handle : Bool → Event → Cell → Option Cell
handle also_gsm (technology name) c = some (on_technology also_gsm (find name type_lut) c)
handle also_gsm (cell_id v) c =
    on_identity also_gsm
      (map_option (with_id c.detail) (set_code c.radio_type (id_bounds c.radio_type) v c.detail.id))
      c
handle also_gsm (location_area_code v) c =
    on_identity also_gsm
      (map_option (with_area c.detail) (set_code c.radio_type area v c.detail.location_area_code)) c
handle also_gsm (mobile_country_code v) c =
    on_identity also_gsm
      (map_option (with_country c.detail)
        (set_code c.radio_type country_or_network v c.detail.mobile_country_code))
      c
handle also_gsm (mobile_network_code v) c =
    on_identity also_gsm
      (map_option (with_network c.detail)
        (set_code c.radio_type country_or_network v c.detail.mobile_network_code))
      c
handle also_gsm (strength v) c =
    some (notify (record c { detail = set_strength c.radio_type v c.detail }))
handle also_gsm (status s) c = some (record c { roaming = str_eq s "roaming" })
handle also_gsm expiry c = some (timer_expired c)

-- Events one after the other, up to one that throws.
unfoldable pub run : Bool → List Event → Cell → Option Cell
unfolding handle
run also_gsm [] c = some c
run also_gsm (e ∷ es) c = handle also_gsm e c >>= (λ d. run also_gsm es d)

-- What the constructor reads from the modem.
pub record Modem : Type 0 where
  pub status : String
  pub technology : CellType
  pub area_code : ℤ
  pub country_code : ℤ
  pub network_code : ℤ
  pub cell_id : ℤ
  pub strength : ℤ

-- `is_registered_or_roaming`
unfoldable pub is_registered_or_roaming : String → Bool
is_registered_or_roaming s = str_eq s "registered" || str_eq s "roaming"

-- The fresh cell, before its details are known: the union is as the memory was.
abbrev pub bare : Bool → Detail → Modem → Cell
bare needed memory m = record {
  radio_type = m.technology;
  detail = memory;
  roaming = false;
  needed = needed;
  valid = true;
  timer = false;
  changes = zero;
}

unfoldable pub narrow_detail : Detail → Modem → ℤ → ℤ → ℤ → ℤ → Detail
narrow_detail memory m country network lac id = record memory {
  mobile_country_code = country;
  mobile_network_code = network;
  location_area_code = lac;
  id = id;
  strength_or_physical_id = from_percent m.strength;
}

unfoldable pub lte_detail : Detail → Modem → ℤ → ℤ → ℤ → ℤ → Detail
lte_detail memory m country network lac id = record memory {
  mobile_country_code = country;
  mobile_network_code = network;
  location_area_code = lac;
  id = id;
  strength_or_physical_id = default_value physical;
  lte_strength = from_percent m.strength;
}

unfoldable pub fill : CellType → Detail → Modem → ℤ → ℤ → ℤ → ℤ → Detail
fill CellType.lte memory m country network lac id = lte_detail memory m country network lac id
fill CellType.unknown memory m country network lac id = memory
fill CellType.gsm memory m country network lac id = narrow_detail memory m country network lac id
fill CellType.umts memory m country network lac id = narrow_detail memory m country network lac id

unfoldable pub read_detail : Detail → Modem → Option Detail
read_detail memory m = do
  country ← set country_or_network m.country_code
  network ← set country_or_network m.network_code
  lac ← set area m.area_code
  id ← set (id_bounds m.technology) m.cell_id
  some (fill m.technology memory m country network lac id)

-- The constructor: `memory` is what the memory held, `none` is the exception.
unfoldable pub construct : Bool → Bool → Detail → Modem → Option Cell
construct also_gsm needed memory m =
    if not (is_registered_or_roaming m.status) || is_unknown m.technology
    then some (bare needed memory m)
    else map_option
        (λ d.
          execute_heuristics also_gsm
            (record (bare needed memory m) { detail = d; roaming = str_eq m.status "roaming" }))
        (read_detail memory m)
