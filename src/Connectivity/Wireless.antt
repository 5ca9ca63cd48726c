-- ===== src/Connectivity/Wireless.antt =====
-- cached_wireless_network.cpp: a wireless network as it is kept up to date from the properties of its access
-- point.
use Prim.Native.String.{String}
use location_service.Base.{
  ℕ, suc, ◌-◌, ◌*◌, ◌^◌, ◌==◌, ltb, Option, none, some, List, [], ◌∷◌, if◌then◌else◌,
}
use location_service.Base.Int.{ℤ, pos, negsuc, ◌+ℤ◌}
use location_service.Settings.{find}
use location_service.RadioCell.Bounded.{Bounds, set}
use location_service.RadioCell.Events.{◌>>=◌, map_option}

-- `WirelessNetwork::Mode`
pub data Mode : Type 0 where
  unknown adhoc infrastructure : Mode

abbrev pub frequency_bounds : Bounds
frequency_bounds = record { min = pos 2412; max = pos 5825; inv = pos 2411 }

abbrev pub strength_bounds : Bounds
strength_bounds = record { min = pos 0; max = pos 100; inv = negsuc 0 }

-- A `CachedWirelessNetwork`: `last_seen` is in nanoseconds since the epoch, `ssid` the codes of its `char`s.
pub record Network : Type 0 where
  pub last_seen : ℤ
  pub bssid : String
  pub ssid : List ℤ
  pub mode : Mode
  pub frequency : ℤ
  pub signal_strength : ℤ

-- A D-Bus variant of one of the types that an access point's properties have.
pub data Variant : Type 0 where
  string : String → Variant
  bytes : List ℤ → Variant
  byte : ℤ → Variant
  unsigned_int : ℕ → Variant
  signed_int : ℤ → Variant

-- `Variant::as`: `none` is the exception of another type.
abbrev pub as_text : Variant → Option String
as_text (string s) = some s
as_text _ = none

abbrev pub as_bytes : Variant → Option (List ℤ)
as_bytes (bytes b) = some b
as_bytes _ = none

abbrev pub as_byte : Variant → Option ℤ
as_byte (byte b) = some b
as_byte _ = none

abbrev pub as_unsigned : Variant → Option ℕ
as_unsigned (unsigned_int n) = some n
as_unsigned _ = none

abbrev pub as_signed : Variant → Option ℤ
as_signed (signed_int i) = some i
as_signed _ = none

-- `AccessPoint::Mode` has an `ap` too, which stays unknown.
unfoldable pub wifi_mode_from_ap_mode : ℕ → Mode
wifi_mode_from_ap_mode n = if n == 1 then adhoc else if n == 2 then infrastructure else unknown

-- A cast of an unsigned 32-bit number to `int`.
unfoldable pub to_int : ℕ → ℤ
to_int n = if ltb n (2 ^ 31) then pos n else negsuc (2 ^ 32 - 1 - n)

abbrev pub nanoseconds : ℤ → ℤ
nanoseconds (pos n) = pos (n * 1000000000)
nanoseconds (negsuc n) = negsuc (suc n * 1000000000 - 1)

-- `translate_time_stamp`, given the time at which the system booted. The signed 32-bit number of seconds
-- passes through an unsigned 64-bit one and back, and stays what it is.
unfoldable pub translate_time_stamp : ℤ → ℤ → ℤ
unfolding ◌+ℤ◌
translate_time_stamp ts_when_booted ts = ts_when_booted +ℤ nanoseconds ts

-- `lut`: the properties that are followed, by their names.
pub data Key : Type 0 where
  hw_address ssid strength frequency mode last_seen : Key

abbrev pub lut : List (String × Key)
lut =
    ("HwAddress", hw_address)
    ∷ ("Ssid", ssid)
    ∷ ("Strength", strength)
    ∷ ("Frequency", frequency)
    ∷ ("Mode", mode)
    ∷ ("LastSeen", last_seen)
    ∷ []

-- The properties that the constructor reads.
pub record AccessPoint : Type 0 where
  pub last_seen : ℤ
  pub hw_address : String
  pub ssid : List ℤ
  pub mode : ℕ
  pub frequency : ℕ
  pub strength : ℤ

-- `catch (...)`: a property that cannot be set stays.
abbrev pub or_else : {A : Type 0} → A → Option A → A
or_else a none = a
or_else a (some b) = b

-- `ts_when_booted`
module _ (booted : ℤ) where
  -- The constructor: `none` is the exception of a number outside its bounds.
  unfoldable pub construct : AccessPoint → Option Network
  unfolding set translate_time_stamp wifi_mode_from_ap_mode to_int
  construct ap = do
    f ← set frequency_bounds (to_int ap.frequency)
    s ← set strength_bounds ap.strength
    some (record {
      last_seen = translate_time_stamp booted ap.last_seen;
      bssid = ap.hw_address;
      ssid = ap.ssid;
      mode = wifi_mode_from_ap_mode ap.mode;
      frequency = f;
      signal_strength = s;
    })

  -- The function that the table has for a property: `none` is the exception.
  unfoldable pub set_property : Key → Variant → Network → Option Network
  unfolding set translate_time_stamp wifi_mode_from_ap_mode to_int
  set_property hw_address v n = map_option (λ s. record n { bssid = s }) (as_text v)
  set_property ssid v n = map_option (λ b. record n { ssid = b }) (as_bytes v)
  set_property strength v n =
      map_option (λ i. record n { signal_strength = i }) (as_byte v >>= set strength_bounds)
  set_property frequency v n =
      map_option (λ i. record n { frequency = i })
        (as_unsigned v >>= (λ f. set frequency_bounds (to_int f)))
  set_property mode v n =
      map_option (λ m. record n { mode = wifi_mode_from_ap_mode m }) (as_unsigned v)
  set_property last_seen v n =
      map_option (λ t. record n { last_seen = translate_time_stamp booted t }) (as_signed v)

  unfoldable pub update_property : Option Key → Variant → Network → Network
  unfolding set_property
  update_property none v n = n
  update_property (some k) v n = or_else n (set_property k v n)

  unfoldable pub on_access_point_properties_changed : List (String × Variant) → Network → Network
  unfolding update_property
  on_access_point_properties_changed [] n = n
  on_access_point_properties_changed ((name, v) ∷ dict) n =
      on_access_point_properties_changed dict (update_property (find name lut) v n)
