-- ===== src/Tests/Networks.antt =====
-- Modems, networks and connections.
use location_service.Base.{ℕ, ◌≡◌, refl, true, false, none, some, List, [], ◌∷◌, All}
use location_service.Base.Int.{pos}
use location_service.Base.Maps.{find}
use location_service.RadioCell.{Detail, CellType}
use location_service.RadioCell.Events.{is_registered_or_roaming}
use location_service.Connectivity
use location_service.Connectivity.Cells.{
  Cache, Access, Event, make, cell_added, run, enumerate_connected_radio_cells,
}
use location_service.Connectivity.Enumerated.{IsReady, is_checked, enumerated_complete}
use location_service.Connectivity.Networks.{DeviceType, values}
use location_service.Connectivity.Heard.{latest}
use location_service.Connectivity.Characteristics.{
  characteristics_for_connection, reaches, may_roam, characteristics_for_connection_lem,
}
use location_service.Base.Int.{◌+ℤ◌}
use location_service.Settings
use Prim.Native.String.{String}
use location_service.RadioCell.Bounded.{set}
use location_service.Connectivity.Wireless.{
  Network, Mode, Variant, on_access_point_properties_changed, to_int, translate_time_stamp,
  wifi_mode_from_ap_mode,
}
use location_service.Connectivity.Properties.{
  IsTuned, changes, updated, on_access_point_properties_changed_lem,
}
use location_service.Tests.Samples.{flag}

abbrev memory : Detail
memory = record {
  mobile_country_code = pos 0;
  mobile_network_code = pos 0;
  location_area_code = pos 0;
  id = pos 0;
  strength_or_physical_id = pos 0;
  lte_strength = pos 0;
}

abbrev access : Access
access = record {
  needed = true;
  memory = memory;
  modem = record {
    status = "registered";
    technology = CellType.umts;
    area_code = pos 21;
    country_code = pos 262;
    network_code = pos 2;
    cell_id = pos 345;
    strength = pos 50;
  };
}

abbrev signalled : List Event
signalled =
    Event.modem_added 7 access
    ∷ Event.interfaces_changed 7 false
    ∷ Event.interfaces_changed 7 true
    ∷ Event.dispatched access
    ∷ []

ready : All IsReady signalled
unfolding IsReady is_registered_or_roaming
ready = ((refl, refl), (tt, (tt, ((refl, refl), tt))))

enumerated_complete_example :
    All
      (λ e. (e.cell.valid ≡ true) × (is_checked false e.cell ≡ true))
      (enumerate_connected_radio_cells (run false flag signalled Connectivity.Cells.empty))
enumerated_complete_example = enumerated_complete false flag signalled ready

abbrev scanned : List Connectivity.Networks.Event
scanned =
    Connectivity.Networks.Event.device_added 1 DeviceType.wifi ((11, true) ∷ (12, false) ∷ [])
    ∷ Connectivity.Networks.Event.ap_added 13 1 true
    ∷ Connectivity.Networks.Event.ap_added 11 1 true
    ∷ Connectivity.Networks.Event.ap_removed 13
    ∷ []

abbrev now : Connectivity.Networks.Cache
now = Connectivity.Networks.run scanned Connectivity.Networks.empty

abbrev added_again : Connectivity.Networks.Network
added_again = record { device = 1; access_point = 11; id = 2 }

abbrev devices : List (ℕ × DeviceType)
devices = (1, DeviceType.wifi) ∷ (2, DeviceType.modem) ∷ []

characteristics_for_connection_lem_example :
    characteristics_for_connection devices
      (some false ∷ none ∷ [])
      (some 2 ∷ some 5 ∷ none ∷ some 1 ∷ [])
    ≡ record {
      via_wifi = false;
      via_wwan = true;
      is_roaming = true;
      has_monetary_costs = true;
      is_volume_limited = true;
      is_bandwith_limited = true;
    }
unfolding reaches may_roam find
characteristics_for_connection_lem_example =
    characteristics_for_connection_lem devices (some false ∷ none ∷ [])
      (some 2 ∷ some 5 ∷ none ∷ some 1 ∷ [])

abbrev network : Network
network = record {
  last_seen = pos 0;
  bssid = "00:11:22:33:44:55";
  ssid = pos 65 ∷ [];
  mode = Mode.unknown;
  frequency = pos 2437;
  signal_strength = pos 70;
}

abbrev dictionary : List (String × Variant)
dictionary =
    ("Frequency", Variant.unsigned_int 60000)
    ∷ ("LastSeen", Variant.signed_int (pos 12))
    ∷ ("Mode", Variant.string "infra")
    ∷ ("Strength", Variant.byte (pos 101))
    ∷ ("Strength", Variant.byte (pos 33))
    ∷ []

on_access_point_properties_changed_lem_example :
    on_access_point_properties_changed (pos 5) dictionary network
    ≡ record network { last_seen = pos 12000000005; signal_strength = pos 33 }
unfolding updated set translate_time_stamp to_int ◌+ℤ◌ wifi_mode_from_ap_mode
    Connectivity.Properties.latest Settings.find
on_access_point_properties_changed_lem_example =
    on_access_point_properties_changed_lem (pos 5) dictionary network
