-- ===== src/Codec/Vehicles.antt =====
-- space_vehicle.h and the codecs of space vehicles and of the map of the visible ones.
use location_service.Base.{
  ℕ, zero, suc, ◌%◌, ◌^◌, ltb, ◌==◌, Bool, Option, none, some, List, [], ◌∷◌, if◌then◌else◌,
}
use location_service.Codec.Message.{Bus}
use location_service.Codec.Build.{Codec, ◌>>=◌, pair, members, in_structure}
use location_service.Codec.Values.{boolean, quantity}

-- `SpaceVehicle::Key`; a type is the number of its enumerator.
pub record Key : Type 0 where
  pub type : ℕ
  pub id : ℕ

-- `Key::operator<`
unfoldable pub less : Key → Key → Bool
less a b = if a.type == b.type then ltb a.id b.id else ltb a.type b.type

-- `SpaceVehicle`
pub record SpaceVehicle (F D : Type 0) : Type 0 where
  pub key : Key
  pub snr : F
  pub has_almanac_data : Bool
  pub has_ephimeris_data : Bool
  pub used_in_fix : Bool
  pub azimuth : D
  pub elevation : D

-- `std::map<Key, T>`: the pairs in the order of their keys; `insert` keeps what a key already has.
unfoldable pub insert : {V : Type 0} → Key → V → List (Key × V) → List (Key × V)
insert key vehicle [] = (key, vehicle) ∷ []
insert key vehicle ((next, there) ∷ rest) =
    let after = insert key vehicle rest in
    if less key next
    then (key, vehicle) ∷ ((next, there) ∷ rest)
    else if less next key
    then (next, there) ∷ after
    else (next, there) ∷ rest

abbrev pub split_key : Key → ℕ × ℕ
split_key k = (k.type % 2 ^ 32, k.id)

abbrev pub join_key : ℕ × ℕ → Key
join_key t = record { type = t.0; id = t.1 }

abbrev pub split_vehicle :
    {F D : Type 0} → SpaceVehicle F D → Key × (F × (Bool × (Bool × (Bool × (D × D)))))
split_vehicle v = (
  v.key,
  (v.snr, (v.has_almanac_data, (v.has_ephimeris_data, (v.used_in_fix, (v.azimuth, v.elevation))))),
)

abbrev pub join_vehicle :
    {F D : Type 0} → Key × (F × (Bool × (Bool × (Bool × (D × D))))) → SpaceVehicle F D
join_vehicle t = record {
  key = t.0;
  snr = t.1.0;
  has_almanac_data = t.1.1.0;
  has_ephimeris_data = t.1.1.1.0;
  used_in_fix = t.1.1.1.1.0;
  azimuth = t.1.1.1.1.1.0;
  elevation = t.1.1.1.1.1.1;
}

module _ {bus : Bus} where
  abbrev pub uint32 : Codec bus ℕ
  uint32 = record { encode = bus.push_uint32; decode = bus.pop_uint32 }

  -- `Codec<SpaceVehicle::Key>`
  abbrev pub key_codec : Codec bus Key
  key_codec = members split_key join_key (pair uint32 uint32)

  abbrev pub float : Codec bus bus.Float
  float = record {
    encode = λ f w. bus.push_floating_point (bus.to_double f) w;
    decode = λ r. bus.pop_floating_point r >>= (λ d. some (bus.to_float d.0, d.1));
  }

  -- `Codec<SpaceVehicle>`
  abbrev pub vehicle : Codec bus (SpaceVehicle bus.Float bus.Double)
  vehicle = in_structure (
      members split_vehicle join_vehicle (
        pair key_codec
          (pair float (pair boolean (pair boolean (pair boolean (pair quantity quantity)))))))

module _ (bus : Bus) where
  -- `Codec<std::map<SpaceVehicle::Key, SpaceVehicle>>`
  unfoldable pub encode_elements :
      List (Key × SpaceVehicle bus.Float bus.Double) → bus.Writer → bus.Writer
  encode_elements [] sub = sub
  encode_elements ((k, v) ∷ rest) sub = encode_elements rest ((vehicle {bus = bus}).encode v sub)

  unfoldable pub encode_vehicles :
      List (Key × SpaceVehicle bus.Float bus.Double) → bus.Writer → bus.Writer
  unfolding encode_elements
  encode_vehicles vs w = bus.close_array (encode_elements vs (bus.open_sub w)) w

  -- The loop, with fuel for at most so many rounds.
  unfoldable pub decode_elements :
      ℕ
      → bus.Reader
      → List (Key × SpaceVehicle bus.Float bus.Double)
      → Option (List (Key × SpaceVehicle bus.Float bus.Double))
  unfolding insert
  decode_elements zero sub out = none
  decode_elements (suc fuel) sub out =
      if bus.at_end sub
      then some out
      else ((vehicle {bus = bus}).decode sub
          >>= (λ v. decode_elements fuel v.1 (insert v.0.key v.0 out)))

  unfoldable pub decode_vehicles :
      ℕ → bus.Reader → Option (List (Key × SpaceVehicle bus.Float bus.Double))
  unfolding decode_elements
  decode_vehicles fuel r = bus.pop_array r >>= (λ p. decode_elements fuel p.0 [])
