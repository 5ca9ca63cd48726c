-- ===== src/Tests/Services.antt =====
-- Sessions, reports and the properties of the service.
use location_service.Base.{
  ℕ, ◌+◌, ◌≡◌, ◌↔◌, ◌⊎◌, refl, Bool, true, false, Option, some, List, [], ◌∷◌, arith,
}
use location_service.Criteria
use location_service.Engine.State.{Status, SatelliteState, ReportingState}
use location_service.Settings.{ServiceState}
use location_service.Service.Permissions.{
  Verdict, Credentials, Answer, RequestParameters, Manager, trust_store_manager,
}
use location_service.Service.Sessions
use location_service.Base.Maps.{find}
use location_service.Service.Sessions.{
  Request, Element, Skeleton, Event, handle_create_session_for_criteria,
}
use location_service.Service.Refinement.{run-refines_ledger, run_ledger, requests, opening}
use location_service.Service.Trusted.{trust_store_manager-granted, handle-keeps}
use location_service.Service.Harvester
use location_service.Service.Harvester.{Call, recording, replay, idle, stop, harvester_lem}
use location_service.Service.Mirror
use location_service.Tests.Messages.{wanted}
use location_service.Connectivity
use location_service.Base.Int.{pos, negsuc}
use location_service.RadioCell.{Cell, CellType}
use location_service.Connectivity.Wireless.{Network, Mode}
use location_service.Service.Ichnaea.{nomap, convert_wifis_to_json}
use location_service.Service.Submitted.{convert_wifis_to_json-nomap}

abbrev client : Credentials
client = record { pid = 40; uid = 1000 }

abbrev profile_of : ℕ → Option ℕ
profile_of pid = some (pid + 1)

abbrev agent : RequestParameters → Option Answer
agent p = some Answer.granted

trust_store_manager-granted_example :
    (trust_store_manager false profile_of agent wanted client ≡ Verdict.granted) ↔ (
      (false ≡ true)
      ⊎ ((p : ℕ) × (profile_of 40 ≡ some p)
          × (agent (record { uid = 1000; pid = 40; profile = p }) ≡ some Answer.granted)))
trust_store_manager-granted_example =
    trust_store_manager-granted false profile_of agent wanted client

abbrev manager : Manager ℕ
manager = trust_store_manager false profile_of agent

abbrev ask : ℕ → Request ℕ
ask sender = record { sender = sender; criteria = some wanted; credentials = some client }

abbrev create : Criteria.Criteria ℕ → Option ℕ
create c = some c.accuracy.horizontal

abbrev watch : ℕ → Bool
watch sender = true

abbrev asked : List (Event ℕ)
asked =
    Event.requested (ask 3)
    ∷ Event.requested (ask 4)
    ∷ Event.owner_changed 0
    ∷ Event.requested (ask 3)
    ∷ []

run-refines_ledger_example :
    ((Sessions.run manager create watch asked Sessions.start).session_store
      ≡ (run_ledger manager create watch asked opening).live)
    × ((Sessions.run manager create watch asked Sessions.start).replies
        ≡ (run_ledger manager create watch asked opening).answers)
unfolding requests
run-refines_ledger_example = run-refines_ledger manager create watch asked (omega arith)

-- A store whose next number is that of a session that lives.
abbrev full : Skeleton ℕ
full = record {
  index = 0;
  session_store = (0, record { watched = 9; session = 12 }) ∷ [];
  replies = [];
}

-- The next request gets the number of the session that is there.
handle-keeps_example :
    find 0 (handle_create_session_for_criteria manager create watch (ask 9) full).session_store
    ≡ find 0 full.session_store
unfolding find
handle-keeps_example = handle-keeps manager create watch (ask 9) full 0 _ refl

abbrev denying : Manager ℕ
denying c k = Verdict.rejected

abbrev harvest : List (Harvester.Event ℕ)
harvest =
    Harvester.Event.start_harvester
    ∷ Harvester.Event.position_updated 5
        (record { radio = Connectivity.Cells.empty; network = Connectivity.Networks.empty })
    ∷ Harvester.Event.start_harvester
    ∷ []

harvester_lem_example :
    (replay (Harvester.run recording harvest (idle [])).reporter
      ≡ some (Harvester.run recording harvest (idle [])).is_running)
    × (replay (stop recording (Harvester.run recording harvest (idle []))).reporter ≡ some false)
harvester_lem_example = harvester_lem harvest

abbrev service_off : Mirror.Service
service_off = record {
  state = ServiceState.disabled;
  is_online = false;
  does_satellite_based_positioning = true;
  does_report_cell_and_wifi_ids = false;
  engine_state = Status.off;
  satellite_based_positioning_state = SatelliteState.on;
  wifi_and_cell_id_reporting_state = ReportingState.off;
  harvesting = false;
  told = [];
  saved_states = [];
}

abbrev stored_active : Mirror.Service
stored_active = record service_off {
  does_satellite_based_positioning = false;
  engine_state = Status.active;
}

-- A network whose ssid is A_nomap, and one whose ssid is A.
abbrev marked : Network
marked = record {
  last_seen = pos 0;
  bssid = "00:11:22:33:44:55";
  ssid = pos 65 ∷ nomap;
  mode = Mode.infrastructure;
  frequency = pos 2437;
  signal_strength = pos 70;
}

abbrev open_network : Network
open_network = record marked { ssid = pos 65 ∷ [] }

convert_wifis_to_json-nomap_example :
    convert_wifis_to_json (open_network ∷ marked ∷ []) ≡ convert_wifis_to_json (open_network ∷ [])
convert_wifis_to_json-nomap_example =
    convert_wifis_to_json-nomap (open_network ∷ []) [] marked (pos 65 ∷ []) [] refl

abbrev lte_cell : Cell
lte_cell = record {
  radio_type = CellType.lte;
  detail = record {
    mobile_country_code = pos 262;
    mobile_network_code = negsuc 0;
    location_area_code = pos 21;
    id = pos 345;
    strength_or_physical_id = pos 2147483647;
    lte_strength = pos 17;
  };
  roaming = false;
  needed = true;
  valid = true;
  timer = false;
  changes = 0;
}
