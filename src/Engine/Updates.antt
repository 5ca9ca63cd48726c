-- ===== src/Engine/Updates.antt =====
-- engine.cpp and implementation.cpp: what becomes of a position that a provider has. The update policy chooses
-- what is assigned to `updates.last_known_location`, whose slots tell the providers and the harvester.
use location_service.Base.{ℕ, Bool, true, not, Option, none, some, List, [], ◌∷◌, if◌then◌else◌}
use location_service.Measure.{Compare, Position, Update, position_eq, update_eq}
use location_service.UpdatePolicy.{Policy, verify_position}
use location_service.Service.Harvester.{
  Connectivity, Call, Harvester, recording, report_position_update,
}

-- The slots of `last_known_location.changed()`: one of each provider that was added, and the service's.
pub data Slot : Type 0 where
  provider : ℕ → Slot
  harvester : Slot

-- The policy and the current location; `told` are the reference locations that providers were told, the newest
-- first, and the harvester's reporter keeps its calls.
pub record Locations (Q : Type 0) : Type 0 where
  pub policy : Policy Q
  pub last_known_location : Option (Update (Position Q))
  pub slots : List Slot
  pub told : List (ℕ × Update (Position Q))
  pub harvest : Harvester (List (Call (Update (Position Q))))

module _ {Q : Type 0} where
  -- The slot of one provider or of the service, which are called with a location that is there.
  unfoldable pub tell_one : Connectivity → Update (Position Q) → Slot → Locations Q → Locations Q
  unfolding report_position_update
  tell_one c u (provider i) l = record l { told = (i, u) ∷ l.told }
  tell_one c u harvester l = record l { harvest = report_position_update recording u c l.harvest }

  unfoldable pub tell_all :
      Connectivity → Update (Position Q) → List Slot → Locations Q → Locations Q
  unfolding tell_one
  tell_all c u [] l = l
  tell_all c u (s ∷ ss) l = tell_all c u ss (tell_one c u s l)

module _ {Q : Type 0} ⦃o : Compare Q⦄ where
  -- `!=` of `Optional<Update<Position>>`, by which an assignment to the property decides whether it changes.
  unfoldable pub differs : Option (Update (Position Q)) → Update (Position Q) → Bool
  unfolding update_eq position_eq
  differs none u = true
  differs (some v) u = not (update_eq position_eq v u)

  unfoldable pub assign_location : Connectivity → Update (Position Q) → Locations Q → Locations Q
  unfolding differs tell_all
  assign_location c u l =
      if differs l.last_known_location u
      then tell_all c u l.slots (record l { last_known_location = some u })
      else l

  -- The slot of a provider's `updates().position`.
  unfoldable pub on_position : Connectivity → Update (Position Q) → Locations Q → Locations Q
  unfolding verify_position assign_location
  on_position c u l =
      let v = verify_position l.policy u in assign_location c v.1 (record l { policy = v.0 })

  -- Positions one after the other, each with what the connectivity manager has at that moment.
  unfoldable pub on_positions :
      List (Connectivity × Update (Position Q)) → Locations Q → Locations Q
  unfolding on_position
  on_positions [] l = l
  on_positions ((c, u) ∷ rest) l = on_positions rest (on_position c u l)
