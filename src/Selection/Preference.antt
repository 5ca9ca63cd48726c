-- ===== src/Selection/Preference.antt =====
-- The preference that the ordered sets come to.
use location_service.Base.{
  ◌≡◌, refl, sym, ap, ◌∙◌, Bool, true, false, ◌&&◌, List, [], ◌∷◌, Option, none, some,
  if◌then◌else◌, arith,
}
use location_service.Provider.Controller.{
  Controller, are_position_updates_running, are_heading_updates_running,
  are_velocity_updates_running,
}
use location_service.Selection.{
  insert, collect, first_or, less_by, ProviderSelection, determine_position_updates_provider,
  determine_heading_updates_provider, determine_velocity_updates_provider,
  determine_provider_selection_for_criteria,
}

-- The first element of a list that passes a test.
abbrev pub first_that : {P : Type 0} → (P → Bool) → List P → Option P
first_that test [] = none
first_that test (p ∷ ps) = if test p then some p else first_that test ps

-- A provider that matches and runs, else one that matches, else none; the first in the list of each.
abbrev pub preferred : {P : Type 0} → (P → Bool) → (P → Bool) → P → List P → P
preferred running matches null ps = elim (first_that (λ p. matches p && running p) ps) [
  | some p ↦ p
  | none ↦ elim (first_that matches ps) [ some p ↦ p | none ↦ null ]
]

module _ {P : Type 0} (running matches : P → Bool) (null : P) where
  first : List P → Option P
  first [] = none
  first (p ∷ ps) = some p

  better : Option P → P → Option P
  better none p = some p
  better (some q) p = if less_by running p q then some p else some q

  first-insert : (p : P) (s : List P) → first (insert (less_by running) p s) ≡ better (first s) p
  unfolding insert first better
  first-insert p [] = refl
  first-insert p (q ∷ qs) = ground arith

  -- What the collection makes of its first element.
  from_first : Option P → List P → P
  from_first none ps = preferred running matches null ps
  from_first (some q) ps =
      if running q
      then q
      else elim (first_that (λ p. matches p && running p) ps) [ some p ↦ p | none ↦ q ]

  first_or-first : (s : List P) → first_or null s ≡ from_first (first s) []
  unfolding first from_first
  first_or-first [] = refl
  first_or-first (p ∷ ps) = ground arith

  from_first-step :
      (o : Option P) (p : P) (ps : List P)
      → from_first o (p ∷ ps) ≡ from_first (if matches p then better o p else o) ps
  unfolding from_first better
  from_first-step none p ps = ground arith
  from_first-step (some q) p ps = ground arith

  if-first :
      (b : Bool) (p : P) (s : List P)
      → first (if b then insert (less_by running) p s else s)
        ≡ (if b then better (first s) p else first s)
  if-first true p s = first-insert p s
  if-first false p s = refl

  collect-first :
      (ps s : List P)
      → first_or null (collect (less_by running) matches ps s) ≡ from_first (first s) ps
  unfolding collect
  collect-first [] s = first_or-first s
  collect-first (p ∷ ps) s =
      collect-first ps (if matches p then insert (less_by running) p s else s)
      ∙ (ap (λ o. from_first o ps) (if-first (matches p) p s)
          ∙ sym (from_first-step (first s) p ps))

  collect-preferred :
      (ps : List P)
      → first_or null (collect (less_by running) matches ps []) ≡ preferred running matches null ps
  unfolding from_first first
  collect-preferred ps = collect-first ps []

-- For each kind of updates the selection holds the first provider, in the engine's order, that matches the
-- criteria and already delivers updates of that kind; where there is none, the first that matches; and
-- where none matches, the null provider.
pub selection_lem :
    {P : Type 0} (state_controller : P → Controller) (matches : P → Bool) (null_provider : P)
    (ps : List P)
    → determine_provider_selection_for_criteria state_controller matches null_provider ps ≡ record {
      position_updates_provider =
          preferred
            (λ p. are_position_updates_running (state_controller p))
            matches
            null_provider
            ps;
      heading_updates_provider =
          preferred
            (λ p. are_heading_updates_running (state_controller p))
            matches
            null_provider
            ps;
      velocity_updates_provider =
          preferred
            (λ p. are_velocity_updates_running (state_controller p))
            matches
            null_provider
            ps;
    }
unfolding determine_provider_selection_for_criteria determine_position_updates_provider
    determine_heading_updates_provider determine_velocity_updates_provider
selection_lem {P} c m n ps =
    three (collect-preferred (λ p. are_position_updates_running (c p)) m n ps)
      (collect-preferred (λ p. are_heading_updates_running (c p)) m n ps)
      (collect-preferred (λ p. are_velocity_updates_running (c p)) m n ps)
  where
    selection_of : P → P → P → ProviderSelection P
    selection_of a b d = record {
      position_updates_provider = a;
      heading_updates_provider = b;
      velocity_updates_provider = d;
    }

    three : {a b d x y z : P} → a ≡ x → b ≡ y → d ≡ z → selection_of a b d ≡ selection_of x y z
    three p q r = cc
