-- ===== src/Dummy/Configured.antt =====
-- `create_instance` and the constructor of the dummy provider: what it updates with.
use Prim.Native.String.{String}
use location_service.Base.{Option, none, some, List}
use location_service.Base.Int.{ℤ, pos}
use location_service.Measure.{Position}
use location_service.Settings.{find}

-- A property tree of texts that are numbers already: a whole number and the others.
pub record Tree (Q : Type 0) : Type 0 where
  pub periods : List (String × ℤ)
  pub quantities : List (String × Q)

-- `config.get(key, default)`
abbrev pub get_or : {A : Type 0} → A → Option A → A
get_or default none = default
get_or default (some a) = a

-- `Configuration`
pub record Configuration (Q : Type 0) : Type 0 where
  pub update_period : ℤ
  pub reference_position : Position Q
  pub reference_velocity : Q
  pub reference_heading : Q

-- The numbers of the source, as quantities: those of the altitude in the header and of the defaults here.
pub record Defaults (Q : Type 0) : Type 0 where
  pub latitude : Q
  pub longitude : Q
  pub altitude : Q
  pub velocity : Q
  pub heading : Q

-- A key that is there is read, and one that is not leaves what the header sets.
abbrev pub or_header : {Q : Type 0} → Option Q → Option Q → Option Q
or_header (some q) header = some q
or_header none header = header

module _ {Q : Type 0} (defaults : Defaults Q) where
  abbrev pub quantity : String → Tree Q → Option Q
  quantity key t = find key t.quantities

  unfoldable pub create_instance : Tree Q → Configuration Q
  unfolding find
  create_instance t = record {
    update_period = get_or (pos 500) (find "UpdatePeriodInMs" t.periods);
    reference_position = record {
      latitude = get_or defaults.latitude (quantity "ReferenceLocationLat" t);
      longitude = get_or defaults.longitude (quantity "ReferenceLocationLon" t);
      altitude = or_header (quantity "ReferenceLocationAlt" t) (some defaults.altitude);
      accuracy = record {
        horizontal = or_header (quantity "ReferenceHorizontalAccuracy" t) none;
        vertical = or_header (quantity "ReferenceVerticalAccuracy" t) none;
      };
    };
    reference_velocity = get_or defaults.velocity (quantity "ReferenceVelocity" t);
    reference_heading = get_or defaults.heading (quantity "ReferenceHeading" t);
  }
