-- ===== src/Provider/Simulate.antt =====
-- Two states with the same controller, of which one simulates the other: the public functions of the controller keep
-- a relation that writing the controller and calling the virtual functions keep.
use location_service.Base.{◌≡◌, Bool, true, false, if◌then◌else◌}
use location_service.Provider.Controller.{
  Call, start_position, stop_position, start_heading, stop_heading, start_velocity, stop_velocity,
  Controller, Part, switched_off, forward, disable, stop_if, are_position_updates_running,
  are_heading_updates_running, are_velocity_updates_running,
}

module _ {S T : Type 0} (R : S → T → Type 0) (s_part : Part S Controller)
    (t_part : Part T Controller) (s_call : Call → S → S) (t_call : Call → T → T)
    (same : (s : S) (t : T) → R s t → t_part.get t ≡ s_part.get s)
    (put_R : (c : Controller) (s : S) (t : T) → R s t → R (s_part.put c s) (t_part.put c t))
    (call_R : (c : Call) (s : S) (t : T) → R s t → R (s_call c s) (t_call c t)) where
  if_R :
      (b : Bool) {s s' : S} {t t' : T}
      → R s t
      → R s' t'
      → R (if b then s else s') (if b then t else t')
  if_R true h k = h
  if_R false h k = k

  pub forward-simulates :
      (c : Call) (s : S) (t : T) → R s t → R (forward s_part s_call c s) (forward t_part t_call c t)
  unfolding forward
  forward-simulates start_position s t h =
      rw (same s t h) (if_R _ h (if_R _ (call_R _ _ _ (put_R _ s t h)) (put_R _ s t h)))
  forward-simulates stop_position s t h =
      rw (same s t h) (if_R _ h (if_R _ (call_R _ _ _ (put_R _ s t h)) (put_R _ s t h)))
  forward-simulates start_heading s t h =
      rw (same s t h) (if_R _ h (if_R _ (call_R _ _ _ (put_R _ s t h)) (put_R _ s t h)))
  forward-simulates stop_heading s t h =
      rw (same s t h) (if_R _ h (if_R _ (call_R _ _ _ (put_R _ s t h)) (put_R _ s t h)))
  forward-simulates start_velocity s t h =
      rw (same s t h) (if_R _ h (if_R _ (call_R _ _ _ (put_R _ s t h)) (put_R _ s t h)))
  forward-simulates stop_velocity s t h =
      rw (same s t h) (if_R _ h (if_R _ (call_R _ _ _ (put_R _ s t h)) (put_R _ s t h)))

  stop_if-simulates :
      (test : Controller → Bool) (c : Call) (s : S) (t : T)
      → R s t
      → R (stop_if s_part s_call test c s) (stop_if t_part t_call test c t)
  unfolding stop_if
  stop_if-simulates test c s t h = rw (same s t h) (if_R _ (call_R c s t h) h)

  pub disable-simulates :
      (s : S) (t : T) → R s t → R (disable s_part s_call s) (disable t_part t_call t)
  unfolding disable
  disable-simulates s t h = put_R switched_off _ _ (
      stop_if-simulates are_velocity_updates_running stop_velocity _ _ (
        stop_if-simulates are_heading_updates_running stop_heading _ _
          (stop_if-simulates are_position_updates_running stop_position s t h)))
