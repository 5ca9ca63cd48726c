-- ===== src/Session/Matched.antt =====
-- That the two sides of a session have the same status.
use location_service.Base.{Bool-cases, inl, inr, ◌≡◌, refl, true, false, List, [], ◌∷◌, arith, All}
use location_service.Engine.State.{Property}
use location_service.Remote.{Outcome, answered, request_lost, answer_lost}
use location_service.Session.{
  Status, enabled, disabled, handle, set_position_status, set_velocity_status,
}
use location_service.Session.Client.{
  Client, Assignment, position_status, velocity_status, heading_status, transact, assign,
  assign_all, connected,
}

-- No assignment to the heading, and every transaction gets to the other side.
abbrev pub IsDelivered : Assignment × Outcome → Type 0
IsDelivered (heading_status b, outcome) = ¬ Unit {0}
IsDelivered (a, answered) = Unit
IsDelivered (a, request_lost) = ¬ Unit {0}
IsDelivered (a, answer_lost) = Unit

unfoldable pub IsMatched : Client → Type 0
IsMatched c = (c.session.position_status ≡ c.position) × (c.session.velocity_status ≡ c.velocity)

module _ (status : Property Status) where
  step-IsMatched :
      (a : Assignment) (outcome : Outcome) (c : Client)
      → IsDelivered (a, outcome)
      → IsMatched c
      → IsMatched (assign status a outcome c)
  unfolding assign IsMatched transact handle set_position_status set_velocity_status
  step-IsMatched (position_status enabled) answered c h m = ground arith
  step-IsMatched (position_status disabled) answered c h m = ground arith
  step-IsMatched (velocity_status enabled) answered c h m = ground arith
  step-IsMatched (velocity_status disabled) answered c h m = ground arith
  step-IsMatched (position_status enabled) answer_lost c h m = ground arith
  step-IsMatched (position_status disabled) answer_lost c h m = ground arith
  step-IsMatched (velocity_status enabled) answer_lost c h m = ground arith
  step-IsMatched (velocity_status disabled) answer_lost c h m = ground arith
  step-IsMatched (position_status b) request_lost c h m = elim (h tt) [ ]
  step-IsMatched (velocity_status b) request_lost c h m = elim (h tt) [ ]
  step-IsMatched (heading_status b) outcome c h m = elim (h tt) [ ]

  assign_all-IsMatched :
      (steps : List (Assignment × Outcome)) (c : Client)
      → All IsDelivered steps
      → IsMatched c
      → IsMatched (assign_all status steps c)
  unfolding assign_all
  assign_all-IsMatched [] c h m = m
  assign_all-IsMatched ((a, outcome) ∷ rest) c h m =
      assign_all-IsMatched rest _ h.1 (step-IsMatched a outcome c h.0 m)

  -- Whatever a new client assigns to the statuses of positions and velocities, if every transaction gets to the
  -- service, answered or not: the session of the service has the statuses of the client.
  pub connected-IsMatched :
      (steps : List (Assignment × Outcome))
      → All IsDelivered steps
      → IsMatched (assign_all status steps connected)
  unfolding IsMatched
  connected-IsMatched steps h = assign_all-IsMatched steps connected h (refl, refl)

  emits_self : (b : Status) → status.emits b b ≡ false
  emits_self b = elim (Bool-cases (status.emits b b)) [
    | inl e ↦ elim ((status.emits_iff b b).0 e refl) [ ]
    | inr e ↦ e
  ]

  emits_new : status.emits disabled enabled ≡ true
  emits_new = (status.emits_iff disabled enabled).1 (λ e. ground arith)

  -- If the transaction of a start is lost, the assignment throws, but the client's status is enabled from then
  -- on: the same assignment again does nothing and does not throw, and the session stays as it was.
  start_is_not_retried :
      (c : Client) (outcome : Outcome)
      → c.position ≡ disabled
      → let lost = assign status (position_status enabled) request_lost c in
        let again = assign status (position_status enabled) outcome lost in
        (lost.threw ≡ true) × (again.threw ≡ false) × (again.session ≡ c.session)
  unfolding assign transact
  start_is_not_retried c outcome h = let n = emits_new in let s = emits_self enabled in ground arith
