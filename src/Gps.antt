-- ===== src/Gps.antt =====
-- android_hardware_abstraction_layer.cpp and gps/provider.cpp: the provider that drives a GPS chipset through
-- the driver of the platform. A flag of the driver's bitfields is a field of its own.
pub mod Satellites
pub mod Visibility
pub mod Modes
pub mod Delivered
pub mod Xtra
use location_service.Base.{
  ℕ, Bool, true, false, not, ◌&&◌, Option, none, some, List, [], ◌∷◌, ◌++◌, if◌then◌else◌,
}
use location_service.Base.Int.{ℤ}
use location_service.Measure.{Position}
use location_service.Codec.Vehicles.{Key, SpaceVehicle}
use location_service.Gps.Satellites.{SvStatus, space_vehicles}

-- `AssistanceMode` and `PositionMode`
pub data AssistanceMode : Type 0 where
  standalone mobile_station_based mobile_station_assisted : AssistanceMode

pub data PositionMode : Type 0 where
  periodic single_shot : PositionMode

-- The flags `U_HARDWARE_GPS_CAPABILITY_...` that the code tests.
pub record Capabilities : Type 0 where
  pub scheduling : Bool
  pub msb : Bool
  pub msa : Bool
  pub has_single_shot : Bool
  pub on_demand_time : Bool

abbrev pub no_capabilities : Capabilities
no_capabilities = record {
  scheduling = false;
  msb = false;
  msa = false;
  has_single_shot = false;
  on_demand_time = false;
}

-- A `UHardwareGpsLocation` that the driver reports, with its flags.
pub record Location (Q : Type 0) : Type 0 where
  pub has_lat_long : Bool
  pub has_altitude : Bool
  pub has_speed : Bool
  pub has_bearing : Bool
  pub has_accuracy : Bool
  pub latitude : Q
  pub longitude : Q
  pub altitude : Q
  pub speed : Q
  pub bearing : Q
  pub accuracy : Q

-- `HardwareAbstractionLayer::ReferenceTimeSample`
pub record Sample : Type 0 where
  pub since_epoch : ℤ
  pub since_boot : ℤ
  pub uncertainty : ℤ

-- A call of the driver.
pub data Command (Q : Type 0) : Type 0 where
  start : Command Q
  stop : Command Q
  set_mode : AssistanceMode → PositionMode → ℕ → ℕ → ℕ → Command Q
  inject_location : Q → Q → Option Q → Command Q
  inject_time : ℤ → ℤ → ℤ → Command Q
  inject_xtra_data : List ℕ → Command Q
  delete_aiding_data : ℕ → Command Q

-- What the signals of the layer emit; `F` is the type of signal to noise ratios.
pub data Emission (F Q : Type 0) : Type 0 where
  position_updates : Position Q → Emission F Q
  velocity_updates : Q → Emission F Q
  heading_updates : Q → Emission F Q
  space_vehicle_updates : List (Key × SpaceVehicle F Q) → Emission F Q

-- `android::HardwareAbstractionLayer::Impl`, with the driver's calls and the emissions, the newest first.
pub record Hal (F Q : Type 0) : Type 0 where
  pub capabilities : Capabilities
  pub assistance_mode : AssistanceMode
  pub position_mode : PositionMode
  pub chipset_status : ℕ
  pub supl_status : ℕ
  pub server_ip : ℕ
  pub commands : List (Command Q)
  pub emissions : List (Emission F Q)

-- What the driver's callbacks bring: a sample that could not be had and data that could not be loaded are
-- `none`, and the kind of an assistance is whether it is `C2K`.
pub data Callback (F Q : Type 0) : Type 0 where
  on_location_update : Location Q → Callback F Q
  on_status_update : ℕ → Callback F Q
  on_sv_status_update : SvStatus F Q → Callback F Q
  on_set_capabilities : Capabilities → Callback F Q
  on_agps_status_update : Bool → ℕ → ℕ → Callback F Q
  on_request_utc_time : Option Sample → Callback F Q
  on_xtra_download_request : Option (List ℕ) → Callback F Q

-- What the program asks of the layer.
pub data Function (Q : Type 0) : Type 0 where
  start_positioning : Function Q
  stop_positioning : Function Q
  set_assistance_mode : AssistanceMode → Function Q
  set_position_mode : PositionMode → Function Q
  inject_reference_position : Position Q → Function Q
  inject_reference_time : Sample → Function Q
  delete_all_aiding_data : Function Q

-- `is_capable_of`
unfoldable pub is_capable_of_assistance : Capabilities → AssistanceMode → Bool
is_capable_of_assistance c standalone = true
is_capable_of_assistance c mobile_station_assisted = c.msa
is_capable_of_assistance c mobile_station_based = c.msb

unfoldable pub is_capable_of_position : Capabilities → PositionMode → Bool
is_capable_of_position c single_shot = c.has_single_shot
is_capable_of_position c periodic = c.scheduling

-- The position of a location that has one: there is no accuracy of the altitude.
unfoldable pub position_of : {Q : Type 0} → Location Q → Position Q
position_of l = record {
  latitude = l.latitude;
  longitude = l.longitude;
  altitude = if l.has_altitude then some l.altitude else none;
  accuracy = record {
    horizontal = if l.has_accuracy then some l.accuracy else none;
    vertical = none;
  };
}

module _ {F Q : Type 0} where
  abbrev pub emit : Emission F Q → Hal F Q → Hal F Q
  emit e h = record h { emissions = e ∷ h.emissions }

  abbrev pub emit_if : Bool → Emission F Q → Hal F Q → Hal F Q
  emit_if b e h = if b then emit e h else h

  unfoldable pub location_updated : Location Q → Hal F Q → Hal F Q
  unfolding position_of
  location_updated l h = emit_if l.has_bearing (heading_updates l.bearing) (
      emit_if l.has_speed (velocity_updates l.speed)
        (emit_if l.has_lat_long (position_updates (position_of l)) h))

  abbrev pub tell : Command Q → Hal F Q → Hal F Q
  tell c h = record h { commands = c ∷ h.commands }

-- The members, before the driver is told of the modes.
abbrev pub unconnected : {F Q : Type 0} → Hal F Q
unconnected = record {
  capabilities = no_capabilities;
  assistance_mode = mobile_station_based;
  position_mode = periodic;
  chipset_status = 0;
  supl_status = 0;
  server_ip = 0;
  commands = [];
  emissions = [];
}

-- What the driver answers to its newest call, given all of them.
module _ {F Q : Type 0} (answer : List (Command Q) → Bool) where
  abbrev pub ask : Command Q → Hal F Q → Bool × Hal F Q
  ask c h = (answer (c ∷ h.commands), tell c h)

  -- 500 ms between two positions, and no preferred accuracy or time to the first fix.
  unfoldable pub dispatch_updated_modes_to_driver : Hal F Q → Bool × Hal F Q
  dispatch_updated_modes_to_driver h = ask (set_mode h.assistance_mode h.position_mode 500 0 0) h

  unfoldable pub construct : Hal F Q
  unfolding dispatch_updated_modes_to_driver
  construct = (dispatch_updated_modes_to_driver unconnected).1

  unfoldable pub call : Function Q → Hal F Q → Bool × Hal F Q
  unfolding dispatch_updated_modes_to_driver is_capable_of_assistance
  call start_positioning h = ask start h
  call stop_positioning h = ask stop h
  call (set_assistance_mode m) h =
      if not (is_capable_of_assistance h.capabilities m)
      then (false, h)
      else dispatch_updated_modes_to_driver (record h { assistance_mode = m })
  call (set_position_mode single_shot) h =
      if not h.capabilities.has_single_shot
      then (false, h)
      else dispatch_updated_modes_to_driver (record h { position_mode = single_shot })
  call (set_position_mode periodic) h =
      if not h.capabilities.scheduling
      then (false, h)
      else dispatch_updated_modes_to_driver (record h { position_mode = periodic })
  call (inject_reference_position p) h =
      (true, tell (inject_location p.latitude p.longitude p.accuracy.horizontal) h)
  call (inject_reference_time s) h =
      if not h.capabilities.on_demand_time
      then (false, h)
      else (true, tell (inject_time s.since_epoch s.since_boot s.uncertainty) h)
  call delete_all_aiding_data h = (true, tell (delete_aiding_data 65535) h)

  unfoldable pub called_back : Callback F Q → Hal F Q → Hal F Q
  unfolding location_updated call space_vehicles
  called_back (on_location_update l) h = location_updated l h
  called_back (on_status_update n) h = record h { chipset_status = n }
  called_back (on_sv_status_update info) h = emit (space_vehicle_updates (space_vehicles info)) h
  called_back (on_set_capabilities c) h = record h { capabilities = c }
  called_back (on_agps_status_update is_c2k status ip) h =
      if is_c2k then h else record h { supl_status = status; server_ip = ip }
  called_back (on_request_utc_time none) h = h
  called_back (on_request_utc_time (some s)) h = (call (inject_reference_time s) h).1
  called_back (on_xtra_download_request none) h = h
  called_back (on_xtra_download_request (some [])) h = h
  called_back (on_xtra_download_request (some (b ∷ bytes))) h =
      tell (inject_xtra_data (b ∷ bytes)) h
