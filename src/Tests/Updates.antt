-- ===== src/Tests/Updates.antt =====
-- Criteria, policies, selectors, selections and settings.
use location_service.Base.{
  ℕ, ◌==◌, not, if◌then◌else◌, ◌≡◌, refl, Bool, true, false, none, some, List, [], ◌∷◌, All, arith,
}
use location_service.Base.Int.{ℤ, +ℤ_parts, pos}
use location_service.Measure.{Position, Update}
use location_service.Criteria.{Criteria, add}
use location_service.Criteria.Merge.{Meets, add-Meets}
use location_service.UpdatePolicy.{Policy}
use location_service.UpdatePolicy.Bracket.{bracket}
use location_service.UpdatePolicy.Accuracy.{verify_all, AsAccurate, most_accurate}
use location_service.Fusion.{WithSource, cutoff, select}
use location_service.Fusion.Accuracy.{IsGoodChoice, select_lem}
use location_service.Provider.Controller.{
  Controller, fresh, are_position_updates_running, are_heading_updates_running,
  are_velocity_updates_running,
}
use location_service.Selection.{determine_provider_selection_for_criteria}
use location_service.Selection.Preference.{selection_lem}
use location_service.Tests.Samples.{whole, whole_laws}

abbrev coarse : Criteria ℕ
coarse = record {
  requires = record { position = true; altitude = false; velocity = false; heading = false };
  accuracy = record { horizontal = 3000; vertical = none; velocity = none; heading = none };
}

abbrev fine : Criteria ℕ
fine = record {
  requires = record { position = true; altitude = true; velocity = false; heading = true };
  accuracy = record { horizontal = 10; vertical = some 5; velocity = none; heading = some 2 };
}

add-Meets_example : Meets (add coarse fine) coarse × Meets (add coarse fine) fine
add-Meets_example = add-Meets whole_laws coarse fine

abbrev position_update : ℕ → ℤ → Update (Position ℕ)
position_update accuracy when = record {
  value = record {
    latitude = 51;
    longitude = 7;
    altitude = none;
    accuracy = record { horizontal = some accuracy; vertical = none };
  };
  when = when;
}

abbrev policy : Policy ℕ
policy = record {
  last_position_update = position_update 50 (pos 1000);
  last_heading_update = record { value = 90; when = pos 1000 };
  last_velocity_update = record { value = 3; when = pos 1000 };
  limit = pos 2;
}

abbrev accurate : Update (Position ℕ)
accurate = position_update 20 (pos 2000)

abbrev updates : List (Update (Position ℕ))
updates = position_update 80 (pos 3000) ∷ position_update 20 (pos 2000) ∷ []

most_accurate_example :
    All
      (AsAccurate (verify_all policy updates).last_position_update)
      (policy.last_position_update ∷ updates)
most_accurate_example =
    most_accurate whole_laws 2 (pos 1000) policy updates
      (record { limit_is = refl; small = omega arith; timely = (omega arith, omega arith) })
      (record {
        timely = (omega arith, omega arith);
        from = ground (arith, +ℤ_parts (pos 1000) (bracket 2));
        to = ground (arith, +ℤ_parts (pos 1000) (bracket 2));
      })
      (
        record {
          timely = (omega arith, omega arith);
          from = ground (arith, +ℤ_parts (pos 1000) (bracket 2));
          to = ground (arith, +ℤ_parts (pos 1000) (bracket 2));
        },
        (
          record {
            timely = (omega arith, omega arith);
            from = ground (arith, +ℤ_parts (pos 1000) (bracket 2));
            to = ground (arith, +ℤ_parts (pos 1000) (bracket 2));
          },
          tt,
        ),
      )

abbrev turned : Update ℕ
turned = record { value = 120; when = pos 2000 }

abbrev of_source : ℕ → Update (Position ℕ) → WithSource (Update (Position ℕ))
of_source i u = record { source = i; value = u }

select_lem_example :
    IsGoodChoice
      (of_source 1 accurate)
      (of_source 2 (position_update 80 (pos 3000)))
      (select (of_source 1 accurate) (of_source 2 (position_update 80 (pos 3000))))
select_lem_example =
    select_lem whole_laws (of_source 1 accurate) (of_source 2 (position_update 80 (pos 3000)))
      (ground (arith, +ℤ_parts (pos 2000) cutoff), ground (arith, +ℤ_parts (pos 2000) cutoff))

-- Providers 0 to 2: the last one delivers positions, the first does not match.
abbrev controller_of : ℕ → Controller
controller_of i = if i == 2 then record fresh { position_updates_counter = pos 1 } else fresh

abbrev is_matching : ℕ → Bool
is_matching i = not (i == 0)

selection_lem_example :
    determine_provider_selection_for_criteria controller_of is_matching 9 (0 ∷ 1 ∷ 2 ∷ [])
    ≡ record {
      position_updates_provider = 2;
      heading_updates_provider = 1;
      velocity_updates_provider = 1;
    }
unfolding are_position_updates_running are_heading_updates_running are_velocity_updates_running
selection_lem_example = selection_lem controller_of is_matching 9 (0 ∷ 1 ∷ 2 ∷ [])
