-- ===== src/Tests/Cells.antt =====
-- Radio cells.
use location_service.Base.{
  ◌≡◌, ◌↔◌, refl, inl, Bool, true, false, Option, none, some, List, [], ◌∷◌,
}
use location_service.Base.Int.{pos}
use location_service.RadioCell.{
  CellType, Cell, is_cell_details_valid, on_identity, set_code, on_technology, change_type,
  execute_heuristics, notify, is_narrow_valid, convert, to_narrow, set_strength,
}
use location_service.RadioCell.Bounded.{is_valid, set, reset, from_percent}
use location_service.Settings.{find}
use location_service.RadioCell.Events.{
  Event, Modem, handle, run, construct, is_registered_or_roaming, read_detail, fill, narrow_detail,
}
use location_service.RadioCell.Validity.{IsPlaced, valid_only_if_complete}
use location_service.RadioCell.Switch.{IsOutOfRange, IsOther, handle-eq-none_iff, umts_waits_for_id}
use location_service.RadioCell.Stale.{stale_physical_id}

abbrev gsm_cell : Cell
gsm_cell = record {
  radio_type = CellType.gsm;
  detail = record {
    mobile_country_code = pos 262;
    mobile_network_code = pos 2;
    location_area_code = pos 21;
    id = pos 345;
    strength_or_physical_id = pos 17;
    lte_strength = pos 99;
  };
  roaming = false;
  needed = true;
  valid = true;
  timer = false;
  changes = 0;
}

abbrev modem : Modem
modem = record {
  status = "registered";
  technology = CellType.umts;
  area_code = pos 21;
  country_code = pos 262;
  network_code = pos 2;
  cell_id = pos 345;
  strength = pos 50;
}

abbrev moves : List Event
moves = Event.technology "umts" ∷ Event.location_area_code (pos 22) ∷ Event.cell_id (pos 70000) ∷ []

-- The cell that a run leaves, with a cell for where it throws.
abbrev cell_or : Cell → Option Cell → Cell
cell_or c none = c
cell_or c (some d) = d

abbrev after : Bool → List Event → Cell → Cell
after g es c = cell_or c (run g es c)

abbrev umts_cell : Cell
umts_cell = cell_or gsm_cell (construct false true gsm_cell.detail modem)

valid_only_if_complete_example :
    is_cell_details_valid
      (after false moves umts_cell).radio_type
      (after false moves umts_cell).detail
    ≡ true
unfolding run handle IsPlaced is_valid on_identity set_code on_technology find change_type
    execute_heuristics notify set is_cell_details_valid is_narrow_valid convert to_narrow reset
    construct is_registered_or_roaming read_detail fill narrow_detail from_percent
valid_only_if_complete_example =
    valid_only_if_complete false true gsm_cell.detail modem moves umts_cell
      (after false moves umts_cell) refl refl refl refl refl refl

handle-eq-none_iff_example :
    (handle false (Event.cell_id (pos 70000)) gsm_cell ≡ none)
    ↔ IsOutOfRange (Event.cell_id (pos 70000)) gsm_cell
handle-eq-none_iff_example = handle-eq-none_iff false (Event.cell_id (pos 70000)) gsm_cell

abbrev reports : List Event
reports = Event.location_area_code (pos 22) ∷ Event.strength (pos 40) ∷ []

umts_waits_for_id_example : (after false (Event.technology "hspa" ∷ reports) gsm_cell).valid ≡ false
unfolding run handle IsPlaced is_valid on_identity set_code on_technology find change_type
    execute_heuristics notify set is_cell_details_valid is_narrow_valid convert to_narrow reset
    set_strength from_percent IsOther
umts_waits_for_id_example =
    umts_waits_for_id false "hspa" reports gsm_cell
      (after false (Event.technology "hspa" ∷ reports) gsm_cell) refl refl refl refl (tt, (tt, tt))
      refl

stale_physical_id_example :
    (d : Cell) × (run false
        (Event.technology "lte" ∷ Event.strength (pos 60) ∷ Event.cell_id (pos 70000) ∷ [])
        gsm_cell
      ≡ some d)
    × (is_cell_details_valid d.radio_type d.detail ≡ true)
    × (d.detail.strength_or_physical_id ≡ pos 17)
unfolding is_valid find IsPlaced
stale_physical_id_example =
    stale_physical_id false "lte" (pos 60) (pos 70000) gsm_cell refl (inl refl) (refl, (refl, refl))
      refl refl
