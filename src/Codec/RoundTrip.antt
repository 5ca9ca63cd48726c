-- ===== src/Codec/RoundTrip.antt =====
-- What was written into a message is read back.
use location_service.Base.{
  ◌≡◌, refl, ap, ◌∙◌, Bool, true, false, Option, none, some, [], ◌∷◌, ◌++◌, if◌then◌else◌,
}
use location_service.Base.Int.{ℤ}
use location_service.Measure.{Position, Update}
use location_service.Criteria
use location_service.Settings.{ServiceState, parse, service_state_text}
use location_service.Settings.RoundTrip.{parse-print}
use location_service.Engine.State.{Status, SatelliteState, ReportingState}
use location_service.Codec.Message.{Bus}
use location_service.Codec.Build.{Codec, ◌>>=◌}
use location_service.Codec.Laws.{Carries, pair-Carries, members-Carries, read-written}
use location_service.Codec.Values.{
  boolean, int64, quantity, optional, position, split_position, join_position, criteria,
  split_criteria, join_criteria, update, split_update, join_update, state, with_rest,
}
use mathlib.Core.List.{append_assoc}

module _ {bus : Bus} where
  pub boolean-Carries : (b : Bool) → Carries (boolean {bus = bus}) b
  boolean-Carries b = record {
    args = bus.boolean b ∷ [];
    written = bus.content-boolean b;
    is_read = λ r rest e. bus.boolean_left r b rest e;
  }

  int64-Carries : (n : ℤ) → Carries (int64 {bus = bus}) n
  int64-Carries n = record {
    args = bus.int64 n ∷ [];
    written = bus.content-int64 n;
    is_read = λ r rest e. bus.int64_left r n rest e;
  }

  pub quantity-Carries : (d : bus.Double) → Carries (quantity {bus = bus}) d
  quantity-Carries d = record {
    args = bus.floating_point d ∷ [];
    written = bus.content-floating_point d;
    is_read = λ r rest e. bus.floating_point_left r d rest e;
  }

  optional-Carries :
      {A : Type 0} (c : Codec bus A)
      → ((a : A) → Carries c a)
      → (o : Option A) → Carries (optional c) o
  optional-Carries c h none = record {
    args = bus.boolean false ∷ [];
    written = bus.content-boolean false;
    is_read = λ r rest e.
        let (s, p, q) = bus.boolean_left r false rest e in
        (
          s,
          ap
              (λ o. o >>= (λ b.
                if b.0 then (c.decode b.1 >>= (λ a. some (some a.0, a.1))) else some (none, b.1)))
              p,
          q,
        );
  }
  optional-Carries c h (some a) = record {
    args = bus.boolean true ∷ (h a).args;
    written = λ w.
        (h a).written (bus.push_boolean true w)
        ∙ (ap (λ xs. xs ++ (h a).args) (bus.content-boolean true w)
            ∙ append_assoc (bus.content w) (bus.boolean true ∷ []) (h a).args);
    is_read = λ r rest e.
        let (s, p, q) = bus.boolean_left r true ((h a).args ++ rest) e in
        let (t, u, v) = (h a).is_read s rest q in
        (
          t,
          ap
                (λ o. o >>= (λ b.
                  if b.0 then (c.decode b.1 >>= (λ a. some (some a.0, a.1))) else some (none, b.1)))
                p
              ∙ ap (λ o. o >>= (λ x. some (some x.0, x.1))) u,
          v,
        );
  }

  options : (o : Option bus.Double) → Carries (optional (quantity {bus = bus})) o
  options = optional-Carries quantity quantity-Carries

  position-Carries : (p : Position bus.Double) → Carries (position {bus = bus}) p
  position-Carries p = members-Carries split_position join_position _ p refl (
      pair-Carries _ _ _ _ (quantity-Carries _) (
        pair-Carries _ _ _ _ (quantity-Carries _)
          (pair-Carries _ _ _ _ (options _) (pair-Carries _ _ _ _ (options _) (options _)))))

  criteria-Carries : (c : Criteria.Criteria bus.Double) → Carries (criteria {bus = bus}) c
  criteria-Carries c = members-Carries split_criteria join_criteria _ c refl (
      pair-Carries _ _ _ _
        (pair-Carries _ _ _ _ (boolean-Carries _) (
          pair-Carries _ _ _ _ (boolean-Carries _)
            (pair-Carries _ _ _ _ (boolean-Carries _) (boolean-Carries _))))
        (pair-Carries _ _ _ _ (quantity-Carries _)
          (pair-Carries _ _ _ _ (options _) (pair-Carries _ _ _ _ (options _) (options _)))))

  update-Carries :
      {T : Type 0} (c : Codec bus T) (u : Update T) → Carries c u.value → Carries (update c) u
  update-Carries c u h =
      members-Carries split_update join_update _ u refl (pair-Carries _ _ _ _ h (int64-Carries _))

  state-Carries : (s : ServiceState) → Carries (state {bus = bus}) s
  state-Carries s = record {
    args = bus.string (service_state_text.print s) ∷ [];
    written = bus.content-string (service_state_text.print s);
    is_read = λ r rest e.
        let (t, p, q) = bus.string_left r (service_state_text.print s) rest e in
        (
          t,
          ap (λ o. o >>= (λ x. with_rest (parse service_state_text x.0) x.1)) p
              ∙ ap (λ o. with_rest o t)
                  (parse-print Status.off SatelliteState.off ReportingState.off s).3,
          q,
        );
  }

-- What was written into an empty message is read from it, with nothing left.
abbrev pub ReadsBack : {bus : Bus} {A : Type 0} → Codec bus A → A → Type 0
ReadsBack {bus = bus} c a =
    (r : bus.Reader) × (c.decode (bus.reader (c.encode a bus.empty)) ≡ some (a, r))
    × (bus.left r ≡ [])

-- A position, criteria, an update of a position and a state that are written into an empty message are
-- what is read from it, with nothing left.
pub decode-encode :
    (bus : Bus) (p : Position bus.Double) (c : Criteria.Criteria bus.Double)
    (u : Update (Position bus.Double)) (s : ServiceState)
    → ReadsBack (position {bus = bus}) p
      × ReadsBack (criteria {bus = bus}) c
      × ReadsBack (update (position {bus = bus})) u
      × ReadsBack (state {bus = bus}) s
decode-encode bus p c u s = (
  read-written {bus = bus} position p (position-Carries p),
  read-written {bus = bus} criteria c (criteria-Carries c),
  read-written {bus = bus} (update position) u
      (update-Carries position u (position-Carries u.value)),
  read-written {bus = bus} state s (state-Carries s),
)
