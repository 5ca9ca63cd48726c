-- ===== src/Provider/Chained.antt =====
-- A controller whose calls are requests of another controller, that of the provider behind it.
use location_service.Base.{
  ◌≡◌, subst, ap, ◌∙◌, Bool, true, false, some, List, [], ◌∷◌, arith, Option-cases, inl, inr,
}
use location_service.Base.Int.{ℤ, pos}
use location_service.Provider.Controller.{
  Call, start_position, stop_position, start_heading, stop_heading, start_velocity, stop_velocity,
  Controller, ask,
}
use location_service.Provider.Consistency.{Driven, init, step, Device, obey, and_then, replay}

-- The controller of which each counter is one or zero.
abbrev pub once : Bool → ℤ
once true = pos 1
once false = pos 0

abbrev pub controller_of : Device → Controller
controller_of d = record {
  position_updates_counter = once d.position;
  heading_updates_counter = once d.heading;
  velocity_updates_counter = once d.velocity;
}

-- Calls, the newest first, are requests of the implementation's controller.
unfoldable pub deliver : List Call → Driven
unfolding step
deliver [] = init
deliver (c ∷ older) = step (deliver older) (ask c)

obey-step :
    (c : Call) (d e : Device) (cs : List Call)
    → obey c d ≡ some e
    → step (record { controller = controller_of d; calls = cs }) (ask c)
      ≡ record { controller = controller_of e; calls = c ∷ cs }
unfolding step
obey-step start_position d e cs h = ground arith
obey-step stop_position d e cs h = ground arith
obey-step start_heading d e cs h = ground arith
obey-step stop_heading d e cs h = ground arith
obey-step start_velocity d e cs h = ground arith
obey-step stop_velocity d e cs h = ground arith

pub replay-deliver :
    (cs : List Call) (d : Device)
    → replay cs ≡ some d
    → deliver cs ≡ record { controller = controller_of d; calls = cs }
unfolding deliver
replay-deliver [] d h = ground arith
replay-deliver (c ∷ older) d h = elim (Option-cases (replay older)) [
  | inl e ↦ ground arith
  | inr (before, e) ↦
      ap (λ x. step x (ask c)) (replay-deliver older before e)
      ∙ obey-step c before d older (subst (λ o. and_then o (obey c) ≡ some d) e h)
]
