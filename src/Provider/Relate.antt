-- ===== src/Provider/Relate.antt =====
-- What the public functions of a controller do to the state around it, seen through a relation that
-- writing the controller and calling the provider both respect.
use location_service.Base.{Bool, if◌then◌else◌, true, false}
use location_service.Provider.Controller.{
  Call, start_position, stop_position, start_heading, stop_heading, start_velocity, stop_velocity,
  Controller, Part, switched_off, forward, disable, stop_if, are_position_updates_running,
  are_heading_updates_running, are_velocity_updates_running,
}

module _ {S : Type 0} (R : S → S → Type 0) (R_refl : (s : S) → R s s)
    (R_trans : (s t u : S) → R s t → R t u → R s u) where
  if-R : (b : Bool) {s t u : S} → R s t → R s u → R s (if b then t else u)
  if-R true h k = h
  if-R false h k = k

  module _ (self : Part S Controller) (call : Call → S → S)
      (R_put : (c : Controller) (s : S) → R s (self.put c s))
      (R_call : (c : Call) (s : S) → R s (call c s)) where
    pub forward-R : (c : Call) (s : S) → R s (forward self call c s)
    unfolding forward
    forward-R start_position s =
        if-R _ (R_refl s) (if-R _ (R_trans _ _ _ (R_put _ s) (R_call _ _)) (R_put _ s))
    forward-R stop_position s =
        if-R _ (R_refl s) (if-R _ (R_trans _ _ _ (R_put _ s) (R_call _ _)) (R_put _ s))
    forward-R start_heading s =
        if-R _ (R_refl s) (if-R _ (R_trans _ _ _ (R_put _ s) (R_call _ _)) (R_put _ s))
    forward-R stop_heading s =
        if-R _ (R_refl s) (if-R _ (R_trans _ _ _ (R_put _ s) (R_call _ _)) (R_put _ s))
    forward-R start_velocity s =
        if-R _ (R_refl s) (if-R _ (R_trans _ _ _ (R_put _ s) (R_call _ _)) (R_put _ s))
    forward-R stop_velocity s =
        if-R _ (R_refl s) (if-R _ (R_trans _ _ _ (R_put _ s) (R_call _ _)) (R_put _ s))

  pub stop_if-R :
      (self : Part S Controller) (call : Call → S → S)
      → ((c : Call) (s : S) → R s (call c s))
      → (test : Controller → Bool) (c : Call) (s : S) → R s (stop_if self call test c s)
  unfolding stop_if
  stop_if-R self call R_call test c s = if-R _ (R_call c s) (R_refl s)

  pub disable-R :
      (self : Part S Controller) (call : Call → S → S)
      → ((c : Call) (s : S) → R s (call c s))
      → ((s : S) → R s (self.put switched_off s))
      → (s : S) → R s (disable self call s)
  unfolding disable
  disable-R self call R_call R_off s =
      R_trans s s3 (self.put switched_off s3)
        (R_trans s s1 s3 (stops are_position_updates_running stop_position s) (
          R_trans s1 s2 s3 (stops are_heading_updates_running stop_heading s1)
            (stops are_velocity_updates_running stop_velocity s2)))
        (R_off s3)
    where
      stop : (Controller → Bool) → Call → S → S
      stop = stop_if self call

      s1 : S
      s1 = stop are_position_updates_running stop_position s

      s2 : S
      s2 = stop are_heading_updates_running stop_heading s1

      s3 : S
      s3 = stop are_velocity_updates_running stop_velocity s2

      stops : (test : Controller → Bool) (c : Call) (t : S) → R t (stop test c t)
      stops = stop_if-R self call R_call
