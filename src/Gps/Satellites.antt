-- ===== src/Gps/Satellites.antt =====
-- `on_sv_status_update` of android_hardware_abstraction_layer.cpp: the satellites that the chipset sees.
use location_service.Base.{ℕ, ◌≤◌, ◌-◌, ◌/◌, ◌%◌, ◌^◌, ◌==◌, Bool, List, [], ◌∷◌, if◌then◌else◌}
use location_service.Codec.Vehicles.{Key, SpaceVehicle, insert}

-- An element of `sv_list`; a `prn` below 1 is 0. The chipset numbers its satellites from 1 to 32, as the source says.
pub record Sv (F Q : Type 0) : Type 0 where
  pub prn : ℕ
  pub prn_le : prn ≤ 32
  pub snr : F
  pub elevation : Q
  pub azimuth : Q

-- `UHardwareGpsSvStatus`, with the first `num_svs` elements of its list.
pub record SvStatus (F Q : Type 0) : Type 0 where
  pub sv_list : List (Sv F Q)
  pub ephemeris_mask : ℕ
  pub almanac_mask : ℕ
  pub used_in_fix_mask : ℕ

-- `mask & (1 << prn)`, where `prn` is below 32 and the mask is a `uint32_t`.
unfoldable pub test_bit : ℕ → ℕ → Bool
test_bit mask prn = mask % 2 ^ 32 / 2 ^ prn % 2 == 1

-- `Key` of a vehicle of the type `gps`
abbrev pub gps_key : ℕ → Key
gps_key prn = record { type = 4; id = prn }

module _ {F Q : Type 0} where
  -- The vehicle of an element, as the code fills it.
  unfoldable pub vehicle_of : SvStatus F Q → Sv F Q → SpaceVehicle F Q
  unfolding test_bit
  vehicle_of info s = record {
    key = gps_key s.prn;
    snr = s.snr;
    has_almanac_data = test_bit info.almanac_mask (s.prn - 1);
    has_ephimeris_data = test_bit info.ephemeris_mask (s.prn - 1);
    used_in_fix = test_bit info.used_in_fix_mask (s.prn - 1);
    azimuth = s.elevation;
    elevation = s.azimuth;
  }

  -- The set, as the list of its vehicles in order, each with its key.
  unfoldable pub insert_all :
      SvStatus F Q → List (Sv F Q) → List (Key × SpaceVehicle F Q) → List (Key × SpaceVehicle F Q)
  unfolding insert vehicle_of
  insert_all info [] svs = svs
  insert_all info (s ∷ rest) svs =
      insert_all info rest
        (if s.prn == 0 then svs else insert (gps_key s.prn) (vehicle_of info s) svs)

  unfoldable pub space_vehicles : SvStatus F Q → List (Key × SpaceVehicle F Q)
  unfolding insert_all
  space_vehicles info = insert_all info info.sv_list []
