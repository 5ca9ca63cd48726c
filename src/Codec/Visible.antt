-- ===== src/Codec/Visible.antt =====
-- The map of the visible space vehicles is read back as it was written.
use location_service.Base.{
  ℕ, zero, suc, ◌<◌, ◌^◌, ◌≡◌, refl, sym, ap, subst, ◌∙◌, true, false, some, List, [], ◌∷◌, ◌++◌,
  if◌then◌else◌, length, All, arith,
}
use mathlib.Core.List.{append_assoc, append-nil}
use location_service.Codec.Message.{Bus}
use location_service.Codec.Build.{◌>>=◌}
use location_service.Codec.Laws.{Carries, pair-Carries, members-Carries, structure-Carries}
use location_service.Codec.Vehicles.{
  Key, SpaceVehicle, less, insert, split_key, join_key, split_vehicle, join_vehicle, uint32, float,
  key_codec, vehicle, encode_elements, encode_vehicles, decode_elements, decode_vehicles,
}
use location_service.Codec.RoundTrip.{boolean-Carries, quantity-Carries}

-- The keys of the map ascend.
abbrev pub Ascending : {V : Type 0} → List (Key × V) → Type 0
Ascending [] = Unit {0}
Ascending (x ∷ xs) = All (λ y. less x.0 y.0 ≡ true) xs × Ascending xs

-- An element stands under its own key, whose type has a number below 2 ^ 32.
pub record IsOwn {F D : Type 0} (x : Key × SpaceVehicle F D) : Type 0 where
  pub keyed : x.1.key ≡ x.0
  pub small : x.0.type < 2 ^ 32

less_asym : (a b : Key) → less a b ≡ true → less b a ≡ false
unfolding less
less_asym a b h = ground arith

All-append :
    {A : Type 0} (P : A → Type 0) (xs : List A) (y : A) (ys : List A) → All P (xs ++ y ∷ ys) → P y
All-append P [] y ys h = h.0
All-append P (x ∷ xs) y ys h = All-append P xs y ys h.1

-- A key behind all others goes to the end.
insert-last :
    {V : Type 0} (xs : List (Key × V)) (k : Key) (v : V) (ys : List (Key × V))
    → Ascending (xs ++ (k, v) ∷ ys)
    → insert k v xs ≡ xs ++ ((k, v) ∷ [])
unfolding insert
insert-last [] k v ys h = refl
insert-last ((j, w) ∷ xs) k v ys h =
    let before = All-append (λ y. less j y.0 ≡ true) xs (k, v) ys h.0 in
    let after = less_asym j k before in
    let rest = insert-last xs k v ys h.1 in rw (after, before, rest)

module _ (bus : Bus) where
  uint32-Carries : (n : ℕ) → Carries (uint32 {bus = bus}) n
  uint32-Carries n = record {
    args = bus.uint32 n ∷ [];
    written = bus.content-uint32 n;
    is_read = λ r rest e. bus.uint32_left r n rest e;
  }

  float-Carries : (f : bus.Float) → Carries (float {bus = bus}) f
  float-Carries f = record {
    args = bus.floating_point (bus.to_double f) ∷ [];
    written = bus.content-floating_point (bus.to_double f);
    is_read = λ r rest e.
        let (s, p, q) = bus.floating_point_left r (bus.to_double f) rest e in
        (
          s,
          ap (λ o. o >>= (λ d. some (bus.to_float d.0, d.1))) p
              ∙ ap (λ x. some (x, s)) (bus.to_float-to_double f),
          q,
        );
  }

  key-Carries : (k : Key) → k.type < 2 ^ 32 → Carries (key_codec {bus = bus}) k
  key-Carries k h =
      members-Carries split_key join_key _ k (whole k h)
        (pair-Carries _ _ _ _ (uint32-Carries _) (uint32-Carries _))
    where
      whole : (k : Key) → k.type < 2 ^ 32 → join_key (split_key k) ≡ k
      whole k h = ground arith

  vehicle-Carries :
      (v : SpaceVehicle bus.Float bus.Double)
      → v.key.type < 2 ^ 32
      → Carries (vehicle {bus = bus}) v
  vehicle-Carries v h = structure-Carries _ v (
      members-Carries split_vehicle join_vehicle _ v refl (
        pair-Carries _ _ _ _ (key-Carries v.key h) (
          pair-Carries _ _ _ _ (float-Carries _) (
            pair-Carries _ _ _ _ (boolean-Carries _) (
              pair-Carries _ _ _ _ (boolean-Carries _) (
                pair-Carries _ _ _ _ (boolean-Carries _)
                  (pair-Carries _ _ _ _ (quantity-Carries _) (quantity-Carries _))))))))

  own-Carries :
      (k : Key) (v : SpaceVehicle bus.Float bus.Double)
      → IsOwn (k, v)
      → Carries (vehicle {bus = bus}) v
  own-Carries k v h = vehicle-Carries v (subst (λ j. j.type < 2 ^ 32) (sym h.keyed) h.small)

  -- The arguments that stand for the elements of a map.
  elements : (xs : List (Key × SpaceVehicle bus.Float bus.Double)) → All IsOwn xs → List bus.Arg
  elements [] h = []
  elements ((k, v) ∷ xs) h = (own-Carries k v h.0).args ++ elements xs h.1

  elements-written :
      (xs : List (Key × SpaceVehicle bus.Float bus.Double)) (h : All IsOwn xs) (w : bus.Writer)
      → bus.content (encode_elements bus xs w) ≡ bus.content w ++ elements xs h
  unfolding encode_elements elements
  elements-written [] h w = sym (append-nil (bus.content w))
  elements-written ((k, v) ∷ xs) h w =
      elements-written xs h.1 ((vehicle {bus = bus}).encode v w)
      ∙ (ap (λ c. c ++ elements xs h.1) ((own-Carries k v h.0).written w)
          ∙ append_assoc (bus.content w) (own-Carries k v h.0).args (elements xs h.1))

  -- Every vehicle is one structure, so a message that goes on with one is not at its end.
  not_at_end :
      (k : Key) (v : SpaceVehicle bus.Float bus.Double) (h : IsOwn (k, v)) (r : bus.Reader)
      (rest : List bus.Arg)
      → bus.left r ≡ (own-Carries k v h).args ++ rest
      → bus.at_end r ≡ false
  unfolding own-Carries vehicle-Carries structure-Carries
  not_at_end k v h r rest e = bus.at_end-cons r _ rest e

  loop_lem :
      (fuel : ℕ) (xs out : List (Key × SpaceVehicle bus.Float bus.Double)) (h : All IsOwn xs)
      (r : bus.Reader)
      → length xs < fuel
      → Ascending (out ++ xs)
      → bus.left r ≡ elements xs h
      → decode_elements bus fuel r out ≡ some (out ++ xs)
  unfolding decode_elements elements
  loop_lem zero xs out h r lt a e = absurd (omega arith)
  loop_lem (suc fuel) [] out h r lt a e = rw (bus.at_end-nil r e) (ap some (sym (append-nil out)))
  loop_lem (suc fuel) ((k, v) ∷ xs) out h r lt a e =
      let (s, p, q) = (own-Carries k v h.0).is_read r (elements xs h.1) e in
      let inserted = ap (λ j. insert j v out) h.0.keyed ∙ insert-last out k v xs a in
      ap
        (λ b.
          if b
          then some out
          else ((vehicle {bus = bus}).decode r
              >>= (λ x. decode_elements bus fuel x.1 (insert x.0.key x.0 out))))
        (not_at_end k v h.0 r _ e)
      ∙ (ap (λ o. o >>= (λ x. decode_elements bus fuel x.1 (insert x.0.key x.0 out))) p
          ∙ (ap (λ m. decode_elements bus fuel s m) inserted
              ∙ (loop_lem fuel xs (out ++ ((k, v) ∷ [])) h.1 s (omega arith)
                    (subst Ascending (sym (append_assoc out ((k, v) ∷ []) xs)) a) q
                  ∙ ap some (append_assoc out ((k, v) ∷ []) xs))))

-- The map of the visible space vehicles that is written into an empty message is what is read from it,
-- by a loop of one round more than the map has elements, if each element stands under its own key.
pub decode-encode_vehicles :
    (bus : Bus) (vs : List (Key × SpaceVehicle bus.Float bus.Double)) (fuel : ℕ)
    → Ascending vs
    → All IsOwn vs
    → length vs < fuel
    → decode_vehicles bus fuel (bus.reader (encode_vehicles bus vs bus.empty)) ≡ some vs
unfolding decode_vehicles encode_vehicles
decode-encode_vehicles bus vs fuel a h lt =
    let sub = encode_elements bus vs (bus.open_sub bus.empty) in
    let inside =
      elements-written bus vs h (bus.open_sub bus.empty)
      ∙ ap (λ c. c ++ elements bus vs h) (bus.content-open bus.empty) in
    let whole =
      bus.left-reader _
      ∙ (bus.content-close_array sub bus.empty
          ∙ ap (λ c. c ++ (bus.array (bus.content sub) ∷ [])) bus.content-empty) in
    let (r, s, p, q, l) =
      bus.array_left (bus.reader (bus.close_array sub bus.empty)) (bus.content sub) [] whole in
    ap (λ o. o >>= (λ x. decode_elements bus fuel x.0 [])) p
    ∙ loop_lem bus fuel vs [] h r lt a (q ∙ inside)
