-- ===== src/Tests/Messages.antt =====
-- Messages.
use location_service.Base.{ℕ, ◌≡◌, refl, true, false, none, some, List, [], ◌∷◌, arith, All}
use location_service.Base.Int.{pos}
use location_service.Measure.{Position, Update}
use location_service.Criteria
use location_service.Settings.{ServiceState}
use location_service.Codec.Vehicles.{Key, SpaceVehicle, less, encode_vehicles, decode_vehicles}
use location_service.Codec.Values.{position, criteria, update, state}
use location_service.Codec.RoundTrip.{ReadsBack, decode-encode}
use location_service.Codec.Visible.{Ascending, IsOwn, decode-encode_vehicles}
use location_service.Tests.Wire.{wire}

abbrev here : Position ℕ
here = record {
  latitude = 51;
  longitude = 7;
  altitude = none;
  accuracy = record { horizontal = some 10; vertical = none };
}

abbrev pub wanted : Criteria.Criteria ℕ
wanted = record {
  requires = record { position = true; altitude = false; velocity = true; heading = false };
  accuracy = record { horizontal = 50; vertical = none; velocity = some 2; heading = none };
}

abbrev moved : Update (Position ℕ)
moved = record { value = here; when = pos 1000 }

decode-encode_example :
    ReadsBack (position {bus = wire}) here
    × ReadsBack (criteria {bus = wire}) wanted
    × ReadsBack (update (position {bus = wire})) moved
    × ReadsBack (state {bus = wire}) ServiceState.active
decode-encode_example = decode-encode wire here wanted moved ServiceState.active

abbrev key : ℕ → ℕ → Key
key t i = record { type = t; id = i }

abbrev seen : Key → SpaceVehicle ℕ ℕ
seen k = record {
  key = k;
  snr = 20;
  has_almanac_data = true;
  has_ephimeris_data = false;
  used_in_fix = true;
  azimuth = 120;
  elevation = 40;
}

abbrev two_vehicles : List (Key × SpaceVehicle ℕ ℕ)
two_vehicles = (key 1 5, seen (key 1 5)) ∷ (key 2 3, seen (key 2 3)) ∷ []

ascending : Ascending two_vehicles
unfolding less
ascending = ((refl, tt), (tt, tt))

own : All IsOwn two_vehicles
own = (
  record { keyed = refl; small = omega arith },
  (record { keyed = refl; small = omega arith }, tt),
)

decode-encode_vehicles_example :
    decode_vehicles wire 3 (wire.reader (encode_vehicles wire two_vehicles wire.empty))
    ≡ some two_vehicles
decode-encode_vehicles_example =
    decode-encode_vehicles wire two_vehicles 3 ascending own (omega arith)
