-- ===== src/Service/Ichnaea.antt =====
-- ichnaea_reporter.cpp: what is submitted to a location service of Mozilla's kind.
use Prim.Native.String.{String}
use location_service.Base.{
  Bool, true, false, ◌&&◌, ◌||◌, Option, none, some, List, [], ◌∷◌, ◌++◌, if◌then◌else◌,
}
use location_service.Base.Int.{ℤ, pos, eqb_ℤ}
use location_service.Measure.{Position, Update}
use location_service.RadioCell.{CellType, unknown, gsm, umts, lte, Detail, Cell}
use location_service.RadioCell.Bounded.{
  Bounds, country_or_network, area, gsm_id, wide_id, physical, signal, is_valid,
}
use location_service.Connectivity.Wireless.{Network, frequency_bounds}

-- A JSON object of texts and 32-bit numbers.
pub data Leaf : Type 0 where
  string : String → Leaf
  int32 : ℤ → Leaf

abbrev pub Entries : Type 0
Entries = List (String × Leaf)

-- The fields of a submitted item; `Q` is the type of the quantities.
pub data Field (Q : Type 0) : Type 0 where
  text : String → Field Q
  double : Q → Field Q
  array : List Entries → Field Q

-- The codes of the characters of "_nomap".
abbrev pub nomap : List ℤ
nomap = pos 95 ∷ pos 110 ∷ pos 111 ∷ pos 109 ∷ pos 97 ∷ pos 112 ∷ []

abbrev pub is_prefix : List ℤ → List ℤ → Bool
is_prefix [] s = true
is_prefix (c ∷ cs) [] = false
is_prefix (c ∷ cs) (d ∷ ds) = let rest = is_prefix cs ds in eqb_ℤ c d && rest

-- `s.find(m) != npos`
unfoldable pub has_infix : List ℤ → List ℤ → Bool
has_infix m [] = is_prefix m []
has_infix m (c ∷ cs) = let later = has_infix m cs in is_prefix m (c ∷ cs) || later

-- `if (value.is_valid()) put_int32(key, value)`: the keys of an object differ, so each is put at the end.
unfoldable pub put_valid : String → Bounds → ℤ → Entries
unfolding is_valid
put_valid key b value = if is_valid b value then (key, int32 value) ∷ [] else []

unfoldable pub wifi_object : Network → Entries
unfolding put_valid
wifi_object n = ("key", string n.bssid) ∷ put_valid "frequency" frequency_bounds n.frequency

unfoldable pub convert_wifis_to_json : List Network → List Entries
unfolding has_infix wifi_object
convert_wifis_to_json [] = []
convert_wifis_to_json (n ∷ rest) =
    let later = convert_wifis_to_json rest in
    if has_infix nomap n.ssid then later else wifi_object n ∷ later

unfoldable pub codes : Bounds → Detail → Entries
unfolding put_valid
codes ids d =
    put_valid "mcc" country_or_network d.mobile_country_code
    ++ (put_valid "mnc" country_or_network d.mobile_network_code
        ++ (put_valid "lac" area d.location_area_code ++ put_valid "cid" ids d.id))

unfoldable pub cell_object : CellType → Detail → Entries
unfolding codes put_valid
cell_object unknown d = []
cell_object gsm d =
    ("radio", string "gsm") ∷ (codes gsm_id d ++ put_valid "asu" signal d.strength_or_physical_id)
cell_object umts d =
    ("radio", string "umts") ∷ (codes wide_id d ++ put_valid "asu" signal d.strength_or_physical_id)
cell_object lte d =
    ("radio", string "lte")
    ∷ (codes wide_id d
        ++ (put_valid "psc" physical d.strength_or_physical_id
            ++ put_valid "asu" signal d.lte_strength))

unfoldable pub convert_cells_to_json : List Cell → List Entries
unfolding cell_object
convert_cells_to_json [] = []
convert_cells_to_json (c ∷ rest) = cell_object c.radio_type c.detail ∷ convert_cells_to_json rest

module _ {Q : Type 0} where
  unfoldable pub put_optional : String → Option Q → List (String × Field Q)
  put_optional key none = []
  put_optional key (some q) = (key, double q) ∷ []

  unfoldable pub put_wifis : List Network → List (String × Field Q)
  unfolding convert_wifis_to_json
  put_wifis [] = []
  put_wifis (n ∷ rest) = ("wifi", array (convert_wifis_to_json (n ∷ rest))) ∷ []

  unfoldable pub put_cells : List Cell → List (String × Field Q)
  unfolding convert_cells_to_json
  put_cells [] = []
  put_cells (c ∷ rest) = ("cell", array (convert_cells_to_json (c ∷ rest))) ∷ []

  -- The one item that `report` submits.
  unfoldable pub report : Update (Position Q) → List Network → List Cell → List (String × Field Q)
  unfolding put_optional put_wifis put_cells
  report update wifis cells =
      ("radio", text "gsm")
      ∷ ("lat", double update.value.latitude)
      ∷ ("lon", double update.value.longitude)
      ∷ (put_optional "accuracy" update.value.accuracy.horizontal
          ++ (put_optional "altitude" update.value.altitude
              ++ (put_optional "altitude_accuracy" update.value.accuracy.vertical
                  ++ (put_wifis wifis ++ put_cells cells))))
