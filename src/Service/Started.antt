-- ===== src/Service/Started.antt =====
-- What the service's properties say once it is constructed.
use location_service.Base.{not, ◌≡◌, ◌≢◌, false}
use location_service.Engine.State.{Status}
use location_service.Service.Mirror.{Service, online_of, is_reporting_on}
use location_service.Service.Slots.{is_disabled}

-- What the first assignment leaves of the service `s`.
record IsOpened (s t : Service) : Type 0 where
  online : t.is_online ≡ online_of t.engine_state
  not_active : t.engine_state ≢ Status.active
  satellite : t.satellite_based_positioning_state ≡ s.satellite_based_positioning_state
  does_satellite : t.does_satellite_based_positioning ≡ s.does_satellite_based_positioning
  reporting : t.wifi_and_cell_id_reporting_state ≡ s.wifi_and_cell_id_reporting_state
  does_report : t.does_report_cell_and_wifi_ids ≡ s.does_report_cell_and_wifi_ids
  harvesting : t.harvesting ≡ s.harvesting

-- What the second assignment leaves.
record IsReported (v : Service) : Type 0 where
  online : v.is_online ≡ online_of v.engine_state
  not_active : v.engine_state ≢ Status.active
  does_satellite : v.does_satellite_based_positioning ≡ false
  reporting : v.does_report_cell_and_wifi_ids ≡ is_reporting_on v.wifi_and_cell_id_reporting_state
  harvester : v.harvesting ≡ v.does_report_cell_and_wifi_ids
  states : is_disabled v.state ≡ not v.is_online

-- The values of the properties of a new service.
pub record IsNew (s : Service) : Type 0 where
  pub offline : s.is_online ≡ false
  pub no_satellites : s.does_satellite_based_positioning ≡ false
  pub no_reports : s.does_report_cell_and_wifi_ids ≡ false
  pub no_harvest : s.harvesting ≡ false
