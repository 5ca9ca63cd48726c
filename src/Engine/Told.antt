-- ===== src/Engine/Told.antt =====
-- What the slots of the current location were told.
use location_service.Base.{
  ℕ, ◌==◌, ==_iff, ◌≡◌, refl, sym, subst, ◌∙◌, true, Option, none, some, List, [], ◌∷◌,
  if◌then◌else◌, if-of, arith, All,
}
use location_service.Base.Maps.{All-map}
use location_service.Measure.{Compare, Position, Update}
use location_service.UpdatePolicy.{Policy, verify_position}
use location_service.Service.Harvester.{
  Connectivity, Call, started, stopped, reported, report_position_update,
}
use location_service.Engine.Updates.{
  Slot, provider, harvester, Locations, tell_one, tell_all, differs, assign_location, on_position,
  on_positions,
}

-- What a slot was told last.
unfoldable pub latest_told :
    {Q : Type 0} → ℕ → List (ℕ × Update (Position Q)) → Option (Update (Position Q))
latest_told i [] = none
latest_told i ((j, u) ∷ rest) = let before = latest_told i rest in if j == i then some u else before

unfoldable pub latest_report : {U : Type 0} → List (Call U) → Option U
latest_report [] = none
latest_report (reported u networks cells ∷ calls) = some u
latest_report (started ∷ calls) = latest_report calls
latest_report (stopped ∷ calls) = latest_report calls

unfoldable pub latest : {Q : Type 0} → Slot → Locations Q → Option (Update (Position Q))
unfolding latest_told latest_report
latest (provider i) l = latest_told i l.told
latest harvester l = latest_report l.harvest.reporter

module _ {Q : Type 0} where
  tell_one-says :
      (c : Connectivity) (u : Update (Position Q)) (s : Slot) (l : Locations Q)
      → l.harvest.is_running ≡ true
      → latest s (tell_one c u s l) ≡ some u
  unfolding latest tell_one latest_told latest_report report_position_update
  tell_one-says c u (provider i) l h = let k = (==_iff i i).1 refl in ground arith
  tell_one-says c u harvester l h = ground arith

  tell_one-keeps :
      (c : Connectivity) (u : Update (Position Q)) (s t : Slot) (l : Locations Q)
      → latest t l ≡ some u
      → latest t (tell_one c u s l) ≡ some u
  unfolding latest tell_one latest_told latest_report report_position_update
  tell_one-keeps c u (provider i) (provider j) l h = ground arith
  tell_one-keeps c u (provider i) harvester l h = h
  tell_one-keeps c u harvester (provider j) l h = h
  tell_one-keeps c u harvester harvester l h = ground arith

  tell_one-same :
      (c : Connectivity) (u : Update (Position Q)) (s : Slot) (l : Locations Q)
      → let m = tell_one c u s l in
        (m.harvest.is_running ≡ l.harvest.is_running)
        × (m.slots ≡ l.slots)
        × (m.last_known_location ≡ l.last_known_location)
  unfolding tell_one report_position_update
  tell_one-same c u (provider i) l = (refl, refl, refl)
  tell_one-same c u harvester l = (ground arith, refl, refl)

  tell_all-keeps :
      (c : Connectivity) (u : Update (Position Q)) (t : Slot) (ss : List Slot) (l : Locations Q)
      → latest t l ≡ some u
      → latest t (tell_all c u ss l) ≡ some u
  unfolding tell_all
  tell_all-keeps c u t [] l h = h
  tell_all-keeps c u t (s ∷ ss) l h = tell_all-keeps c u t ss _ (tell_one-keeps c u s t l h)

  tell_all-says :
      (c : Connectivity) (u : Update (Position Q)) (ss : List Slot) (l : Locations Q)
      → l.harvest.is_running ≡ true
      → All (λ s. latest s (tell_all c u ss l) ≡ some u) ss
  unfolding tell_all
  tell_all-says c u [] l h = tt
  tell_all-says c u (s ∷ ss) l h = (
    tell_all-keeps c u s ss _ (tell_one-says c u s l h),
    tell_all-says c u ss _ ((tell_one-same c u s l).0 ∙ h),
  )

  tell_all-same :
      (c : Connectivity) (u : Update (Position Q)) (ss : List Slot) (l : Locations Q)
      → let m = tell_all c u ss l in
        (m.harvest.is_running ≡ l.harvest.is_running)
        × (m.slots ≡ l.slots)
        × (m.last_known_location ≡ l.last_known_location)
  unfolding tell_all
  tell_all-same c u [] l = (refl, refl, refl)
  tell_all-same c u (s ∷ ss) l =
      let k = tell_one-same c u s l in
      let r = tell_all-same c u ss (tell_one c u s l) in (r.0 ∙ k.0, r.1 ∙ k.1, r.2 ∙ k.2)

  -- Each of some slots was told last what the current location is.
  unfoldable pub AreTold : List Slot → Locations Q → Type 0
  unfolding latest
  AreTold ss l = All (λ s. latest s l ≡ l.last_known_location) ss

  -- The harvester runs, the slots are those, and they are told.
  abbrev IsTold : List Slot → Locations Q → Type 0
  IsTold ss l = (l.harvest.is_running ≡ true) × (l.slots ≡ ss) × AreTold ss l

  -- No position has come yet.
  abbrev pub first_of : Policy Q → List Slot → Locations Q
  first_of p ss = record {
    policy = p;
    last_known_location = none;
    slots = ss;
    told = [];
    harvest = record { is_running = true; reporter = started ∷ [] };
  }

  latest_policy :
      (p : Policy Q) (s : Slot) (l : Locations Q) → latest s (record l { policy = p }) ≡ latest s l
  unfolding latest
  latest_policy p (provider i) l = refl
  latest_policy p harvester l = refl

  none_latest : (p : Policy Q) (ss : List Slot) (s : Slot) → latest s (first_of p ss) ≡ none
  unfolding latest latest_told latest_report
  none_latest p ss (provider i) = refl
  none_latest p ss harvester = refl

  nothing_told : (p : Policy Q) (ss ts : List Slot) → AreTold ts (first_of p ss)
  unfolding AreTold
  nothing_told p ss [] = tt
  nothing_told p ss (s ∷ ts) = (none_latest p ss s, nothing_told p ss ts)

module _ {Q : Type 0} ⦃o : Compare Q⦄ where
  assign_location-IsTold :
      (c : Connectivity) (u : Update (Position Q)) (ss : List Slot) (l : Locations Q)
      → IsTold ss l
      → IsTold ss (assign_location c u l)
  unfolding assign_location AreTold
  assign_location-IsTold c u ss l h =
      if-of (IsTold ss) (differs l.last_known_location u) _ _
        (λ _.
          let l1 = record l { last_known_location = some u } in
          let k = tell_all-same c u l.slots l1 in
          (
            k.0 ∙ h.0,
            k.1 ∙ h.1,
            subst (λ xs. AreTold xs (tell_all c u l.slots l1)) h.1
                (All-map _
                  (λ s.
                    latest s (tell_all c u l.slots l1)
                    ≡ (tell_all c u l.slots l1).last_known_location)
                  l.slots (λ s e. e ∙ sym k.2) (tell_all-says c u l.slots l1 h.0)),
          ))
        (λ _. h)

  on_positions-IsTold :
      (us : List (Connectivity × Update (Position Q))) (ss : List Slot) (l : Locations Q)
      → IsTold ss l
      → IsTold ss (on_positions us l)
  unfolding on_positions on_position AreTold latest
  on_positions-IsTold [] ss l h = h
  on_positions-IsTold ((c, u) ∷ rest) ss l h = on_positions-IsTold rest ss _ (
      assign_location-IsTold c (verify_position l.policy u).1 ss
        (record l { policy = (verify_position l.policy u).0 })
        (
          h.0,
          h.1,
          All-map _ _ ss (λ s e. latest_policy (verify_position l.policy u).0 s l ∙ e) h.2,
        ))

  -- Providers and the service are connected before the first position, and the harvester runs. Whatever positions
  -- come and whichever the policy chooses: each provider was told last, as its reference, the current location,
  -- and so was the harvester's reporter.
  pub on_positions-AreTold :
      (us : List (Connectivity × Update (Position Q))) (p : Policy Q) (ss : List Slot)
      → AreTold ss (on_positions us (first_of p ss))
  unfolding AreTold latest latest_told latest_report
  on_positions-AreTold us p ss =
      (on_positions-IsTold us ss (first_of p ss) (refl, refl, nothing_told p ss ss)).2
