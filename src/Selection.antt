-- ===== src/Selection.antt =====
-- default_provider_selection_policy.cpp and provider_selection.h: which of the engine's providers a
-- session gets for each kind of updates.
pub mod Preference
use location_service.Base.{
  Bool, true, false, ◌&&◌, not, List, [], ◌∷◌, Option, none, some, if◌then◌else◌,
}
use location_service.Provider.Controller.{
  Controller, are_position_updates_running, are_heading_updates_running,
  are_velocity_updates_running,
}

-- `std::set::insert` under an order `less`: a list in that order, to which an element is not added where
-- the set has an equivalent one.
unfoldable pub insert : {P : Type 0} → (P → P → Bool) → P → List P → List P
insert less p [] = p ∷ []
insert less p (q ∷ qs) =
    let rest = insert less p qs in
    if less p q then p ∷ (q ∷ qs) else if less q p then q ∷ rest else q ∷ qs

-- `for_each_provider` with the function that collects the providers that match.
unfoldable pub collect : {P : Type 0} → (P → P → Bool) → (P → Bool) → List P → List P → List P
unfolding insert
collect less matches [] set = set
collect less matches (p ∷ ps) set =
    collect less matches ps (if matches p then insert less p set else set)

-- `empty() ? null_provider() : *begin()`
abbrev pub first_or : {P : Type 0} → P → List P → P
first_or null [] = null
first_or null (p ∷ ps) = p

-- The lambda `less` of the three functions.
abbrev pub less_by : {P : Type 0} → (P → Bool) → P → P → Bool
less_by running l r = running l && not (running r)

-- `ProviderSelection`
pub record ProviderSelection (P : Type 0) : Type 0 where
  pub position_updates_provider : P
  pub heading_updates_provider : P
  pub velocity_updates_provider : P

-- The providers: their controllers, `matches_criteria` for the criteria that are asked for, and the null
-- provider.
module _ {P : Type 0} (state_controller : P → Controller) (matches : P → Bool)
    (null_provider : P) where
  unfoldable pub determine_position_updates_provider : List P → P
  unfolding collect are_position_updates_running
  determine_position_updates_provider ps =
      first_or null_provider
        (collect (less_by (λ p. are_position_updates_running (state_controller p))) matches ps [])

  unfoldable pub determine_heading_updates_provider : List P → P
  unfolding collect are_heading_updates_running
  determine_heading_updates_provider ps =
      first_or null_provider
        (collect (less_by (λ p. are_heading_updates_running (state_controller p))) matches ps [])

  unfoldable pub determine_velocity_updates_provider : List P → P
  unfolding collect are_velocity_updates_running
  determine_velocity_updates_provider ps =
      first_or null_provider
        (collect (less_by (λ p. are_velocity_updates_running (state_controller p))) matches ps [])

  unfoldable pub determine_provider_selection_for_criteria : List P → ProviderSelection P
  unfolding determine_position_updates_provider determine_heading_updates_provider
      determine_velocity_updates_provider
  determine_provider_selection_for_criteria ps = record {
    position_updates_provider = determine_position_updates_provider ps;
    heading_updates_provider = determine_heading_updates_provider ps;
    velocity_updates_provider = determine_velocity_updates_provider ps;
  }
