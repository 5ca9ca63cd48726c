-- ===== src/Gps/Visibility.antt =====
-- Which satellites are emitted, and with what.
use native.Mathlib.Nat.{div-div-eq-div-mul}
use location_service.Base.{
  ◌-◌, ◌/◌, ◌%◌, ◌^◌, zero, suc, Bool, ℕ, ◌<◌, ◌==◌, ltb, ◌≡◌, refl, sym, subst, ap, ◌∙◌, true,
  Option, none, some, List, [], ◌∷◌, if◌then◌else◌, if-of, arith, All, Bool-cases, inl, inr, ==_iff,
}
use location_service.Base.Maps.{All-map}
use location_service.Codec.Vehicles.{Key, SpaceVehicle, less, insert}
use location_service.Gps.Satellites.{
  test_bit, Sv, SvStatus, gps_key, vehicle_of, insert_all, space_vehicles,
}

the_lt : (i j : ℕ) → ltb i j ≡ true → i < j
the_lt i j h = ground arith

less-gps : (i : ℕ) (k : Key) → k.type ≡ 4 → less (gps_key i) k ≡ ltb i k.id
unfolding less
less-gps i k h = ground arith

gps-less : (i : ℕ) (k : Key) → k.type ≡ 4 → less k (gps_key i) ≡ ltb k.id i
unfolding less
gps-less i k h = ground arith

abbrev or_later : {W : Type 0} → Option W → Option W → Option W
or_later none w = w
or_later (some v) w = some v

abbrev or_first : {W : Type 0} → Option W → W → W
or_first none v = v
or_first (some w) v = w

module _ {W : Type 0} where
  unfoldable pub lookup : ℕ → List (Key × W) → Option W
  lookup i [] = none
  lookup i ((k, v) ∷ rest) = let later = lookup i rest in if k.id == i then some v else later

  -- GPS satellites only, with increasing ids.
  unfoldable pub IsOrdered : List (Key × W) → Type 0
  IsOrdered [] = Unit
  IsOrdered ((k, v) ∷ rest) = (k.type ≡ 4) × All (λ y. k.id < y.0.id) rest × IsOrdered rest

  above-lookup : (i : ℕ) (l : List (Key × W)) → All (λ y. i < y.0.id) l → lookup i l ≡ none
  unfolding lookup
  above-lookup i [] h = refl
  above-lookup i ((k, v) ∷ rest) h = let r = above-lookup i rest h.1 in let a = h.0 in ground arith

  insert-All :
      (Q : Key × W → Type 0) (k : Key) (v : W) (l : List (Key × W))
      → Q (k, v)
      → All Q l
      → All Q (insert k v l)
  unfolding insert
  insert-All Q k v [] q h = (q, tt)
  insert-All Q k v ((next, there) ∷ rest) q h =
      if-of (All Q) (less k next) _ _ (λ _. (q, h))
        (λ _. if-of (All Q) (less next k) _ _ (λ _. (h.0, insert-All Q k v rest q h.1)) (λ _. h))

  insert-IsOrdered :
      (i : ℕ) (v : W) (l : List (Key × W)) → IsOrdered l → IsOrdered (insert (gps_key i) v l)
  unfolding insert IsOrdered
  insert-IsOrdered i v [] h = (refl, tt, tt)
  insert-IsOrdered i v ((next, there) ∷ rest) h =
      if-of IsOrdered (less (gps_key i) next) _ _
        (λ e.
          let b = less-gps i next h.0 in
          let lt = the_lt i next.id (sym b ∙ e) in
          (refl, (lt, All-map (λ y. next.id < y.0.id) _ rest (λ y l. omega (arith, l, lt)) h.1), h))
        (λ _.
          if-of IsOrdered (less next (gps_key i)) _ _
            (λ e.
              let lt = the_lt next.id i (sym (gps-less i next h.0) ∙ e) in
              (
                h.0,
                insert-All (λ y. next.id < y.0.id) (gps_key i) v rest lt h.1,
                insert-IsOrdered i v rest h.2,
              ))
            (λ _. h))

  lookup-insert :
      (i j : ℕ) (v : W) (l : List (Key × W))
      → IsOrdered l
      → lookup j (insert (gps_key i) v l)
        ≡ (if i == j then some (or_first (lookup j l) v) else lookup j l)
  unfolding insert lookup IsOrdered less
  lookup-insert i j v [] h = ground arith
  lookup-insert i j v ((next, there) ∷ rest) h =
      let r = lookup-insert i j v rest h.2 in
      let b = less-gps i next h.0 in
      let c = gps-less i next h.0 in
      elim (Bool-cases (ltb i next.id)) [
        | inl e ↦
            let lt = the_lt i next.id e in
            let none_left =
              above-lookup i rest
                (All-map (λ y. next.id < y.0.id) _ rest (λ y l. omega (arith, l, lt)) h.1) in
            elim (Bool-cases (i == j)) [
              | inl k ↦
                  let n = subst (λ n. lookup n rest ≡ none) ((==_iff i j).0 k) none_left in
                  rw (b, e) (ground arith)
              | inr k ↦ rw (b, e) (ground arith)
            ]
        | inr e ↦ elim (Bool-cases (ltb next.id i)) [
          | inl d ↦ rw (b, e, c, d) (ground arith)
          | inr d ↦ rw (b, e, c, d) (ground arith)
        ]
      ]

-- The binary digits of a number, from the lowest on.
unfoldable pub digit : ℕ → ℕ → Bool
digit zero m = m % 2 == 1
digit (suc n) m = digit n (m / 2)

digit_lem : (n m : ℕ) → (m / 2 ^ n % 2 == 1) ≡ digit n m
unfolding digit
digit_lem zero m = ap (λ k. k % 2 == 1) (omega arith)
digit_lem (suc n) m =
    ap (λ k. k % 2 == 1) (ap (λ k. m / k) (omega arith) ∙ sym (div-div-eq-div-mul m 2 (2 ^ n)))
    ∙ digit_lem n (m / 2)

test_bit-digit : (mask prn : ℕ) → test_bit mask prn ≡ digit prn (mask % 2 ^ 32)
unfolding test_bit
test_bit-digit mask prn = digit_lem prn (mask % 2 ^ 32)

module _ {F Q : Type 0} where
  -- An element with an id as it is emitted: its elevation is the azimuth of the element, and its azimuth the
  -- elevation.
  unfoldable pub described : SvStatus F Q → ℕ → Sv F Q → SpaceVehicle F Q
  unfolding digit
  described info i s = record {
    key = record { type = 4; id = i };
    snr = s.snr;
    has_almanac_data = digit (i - 1) (info.almanac_mask % 2 ^ 32);
    has_ephimeris_data = digit (i - 1) (info.ephemeris_mask % 2 ^ 32);
    used_in_fix = digit (i - 1) (info.used_in_fix_mask % 2 ^ 32);
    azimuth = s.elevation;
    elevation = s.azimuth;
  }

  unfoldable pub first_reported : SvStatus F Q → ℕ → List (Sv F Q) → Option (SpaceVehicle F Q)
  unfolding described
  first_reported info i [] = none
  first_reported info i (s ∷ rest) =
      let later = first_reported info i rest in
      if s.prn == i then some (described info i s) else later

  vehicle_of-described :
      (info : SvStatus F Q) (i : ℕ) (s : Sv F Q)
      → s.prn ≡ i
      → vehicle_of info s ≡ described info i s
  unfolding vehicle_of described
  vehicle_of-described info i s e =
      rw
        (
          e,
          test_bit-digit info.almanac_mask (i - 1),
          test_bit-digit info.ephemeris_mask (i - 1),
          test_bit-digit info.used_in_fix_mask (i - 1),
        )
        refl

  one-IsOrdered :
      (n : ℕ) (v : SpaceVehicle F Q) (svs : List (Key × SpaceVehicle F Q))
      → IsOrdered svs
      → IsOrdered (if n == 0 then svs else insert (gps_key n) v svs)
  one-IsOrdered n v svs o = if-of IsOrdered (n == 0) _ _ (λ _. o) (λ _. insert-IsOrdered n v svs o)

  one-lookup :
      (n i : ℕ) (v : SpaceVehicle F Q) (svs : List (Key × SpaceVehicle F Q))
      → 0 < i
      → IsOrdered svs
      → lookup i (if n == 0 then svs else insert (gps_key n) v svs)
        ≡ or_later (lookup i svs) (if n == i then some v else none)
  one-lookup n i v svs p o = let f = lookup-insert n i v svs o in ground arith

  insert_all-IsOrdered :
      (info : SvStatus F Q) (l : List (Sv F Q)) (svs : List (Key × SpaceVehicle F Q))
      → IsOrdered svs
      → IsOrdered (insert_all info l svs)
  unfolding insert_all
  insert_all-IsOrdered info [] svs o = o
  insert_all-IsOrdered info (s ∷ rest) svs o =
      insert_all-IsOrdered info rest _ (one-IsOrdered s.prn (vehicle_of info s) svs o)

  insert_all-lookup :
      (info : SvStatus F Q) (i : ℕ) (l : List (Sv F Q)) (svs : List (Key × SpaceVehicle F Q))
      → 0 < i
      → IsOrdered svs
      → lookup i (insert_all info l svs) ≡ or_later (lookup i svs) (first_reported info i l)
  unfolding insert_all first_reported
  insert_all-lookup info i [] svs p o = ground arith
  insert_all-lookup info i (s ∷ rest) svs p o =
      let k = insert_all-lookup info i rest _ p (one-IsOrdered s.prn (vehicle_of info s) svs o) in
      let f = one-lookup s.prn i (vehicle_of info s) svs p o in
      k ∙ ap (λ w. or_later w (first_reported info i rest)) f ∙ elim (Bool-cases (s.prn == i)) [
        | inl e ↦ let q = vehicle_of-described info i s ((==_iff s.prn i).0 e) in ground arith
        | inr e ↦ ground arith
      ]

  -- The emitted set has its vehicles in the order of their ids, each once, and for each positive id it has
  -- the vehicle of the first element with that id, if there is one. Its three flags are the binary digits of the
  -- 32-bit masks, the lowest for the id 1. Its elevation is the azimuth that the chipset reports, and its azimuth the elevation.
  pub space_vehicles-lookup :
      (info : SvStatus F Q) (i : ℕ)
      → 0 < i
      → IsOrdered (space_vehicles info)
        × (lookup i (space_vehicles info) ≡ first_reported info i info.sv_list)
  unfolding space_vehicles IsOrdered lookup
  space_vehicles-lookup info i p =
      (insert_all-IsOrdered info info.sv_list [] tt, insert_all-lookup info i info.sv_list [] p tt)
