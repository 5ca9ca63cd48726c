-- ===== src/Codec/Values.antt =====
-- The codecs of optional values, positions, criteria, updates and states.
use location_service.Base.{Bool, true, false, Option, none, some, if◌then◌else◌}
use location_service.Base.Int.{ℤ}
use location_service.Measure.{Position, Update}
use location_service.Criteria
use location_service.Settings.{ServiceState, parse, service_state_text}
use location_service.Codec.Message.{Bus}
use location_service.Codec.Build.{Codec, ◌>>=◌, pair, members}

-- `Codec<Position>`
abbrev pub split_position : {D : Type 0} → Position D → D × (D × (Option D × (Option D × Option D)))
split_position p =
    (p.latitude, (p.longitude, (p.altitude, (p.accuracy.horizontal, p.accuracy.vertical))))

abbrev pub join_position : {D : Type 0} → D × (D × (Option D × (Option D × Option D))) → Position D
join_position t = record {
  latitude = t.0;
  longitude = t.1.0;
  altitude = t.1.1.0;
  accuracy = record { horizontal = t.1.1.1.0; vertical = t.1.1.1.1 };
}

-- `Codec<Criteria>`
abbrev pub split_criteria :
    {D : Type 0}
    → Criteria.Criteria D
    → (Bool × (Bool × (Bool × Bool))) × (D × (Option D × (Option D × Option D)))
split_criteria c = (
  (c.requires.position, (c.requires.altitude, (c.requires.heading, c.requires.velocity))),
  (c.accuracy.horizontal, (c.accuracy.vertical, (c.accuracy.velocity, c.accuracy.heading))),
)

abbrev pub join_criteria :
    {D : Type 0}
    → (Bool × (Bool × (Bool × Bool))) × (D × (Option D × (Option D × Option D)))
    → Criteria.Criteria D
join_criteria t = record {
  requires = record {
    position = t.0.0;
    altitude = t.0.1.0;
    heading = t.0.1.1.0;
    velocity = t.0.1.1.1;
  };
  accuracy = record {
    horizontal = t.1.0;
    vertical = t.1.1.0;
    velocity = t.1.1.1.0;
    heading = t.1.1.1.1;
  };
}

-- `Codec<Update<T>>`
abbrev pub split_update : {T : Type 0} → Update T → T × ℤ
split_update u = (u.value, u.when)

abbrev pub join_update : {T : Type 0} → T × ℤ → Update T
join_update t = record { value = t.0; when = t.1 }

-- `Codec<service::State>`; `none` is the exception for a text that is no state.
abbrev pub with_rest : {A R : Type 0} → Option A → R → Option (A × R)
with_rest none r = none
with_rest (some a) r = some (a, r)

module _ {bus : Bus} where
  abbrev pub boolean : Codec bus Bool
  boolean = record { encode = bus.push_boolean; decode = bus.pop_boolean }

  abbrev pub int64 : Codec bus ℤ
  int64 = record { encode = bus.push_int64; decode = bus.pop_int64 }

  -- A `Quantity` and a `Coordinate` are written as their value.
  abbrev pub quantity : Codec bus bus.Double
  quantity = record { encode = bus.push_floating_point; decode = bus.pop_floating_point }

  -- `Codec<Optional<T>>`
  module _ {A : Type 0} (c : Codec bus A) where
    abbrev pub encode_optional : Option A → bus.Writer → bus.Writer
    encode_optional none w = bus.push_boolean false w
    encode_optional (some a) w = c.encode a (bus.push_boolean true w)

    abbrev pub decode_optional : bus.Reader → Option (Option A × bus.Reader)
    decode_optional r =
        bus.pop_boolean r
        >>= (λ b. if b.0 then (c.decode b.1 >>= (λ a. some (some a.0, a.1))) else some (none, b.1))

    abbrev pub optional : Codec bus (Option A)
    optional = record { encode = encode_optional; decode = decode_optional }

  abbrev pub position : Codec bus (Position bus.Double)
  position = members split_position join_position (
      pair quantity
        (pair quantity (pair (optional quantity) (pair (optional quantity) (optional quantity)))))

  abbrev pub criteria : Codec bus (Criteria.Criteria bus.Double)
  criteria = members split_criteria join_criteria (
      pair (pair boolean (pair boolean (pair boolean boolean)))
        (pair quantity (pair (optional quantity) (pair (optional quantity) (optional quantity)))))

  abbrev pub update : {T : Type 0} → Codec bus T → Codec bus (Update T)
  update c = members split_update join_update (pair c int64)

  abbrev pub state : Codec bus ServiceState
  state = record {
    encode = λ s w. bus.push_string (service_state_text.print s) w;
    decode = λ r. bus.pop_string r >>= (λ t. with_rest (parse service_state_text t.0) t.1);
  }
