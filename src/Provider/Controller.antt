-- ===== src/Provider/Controller.antt =====
-- `Provider::Controller` of provider.h and provider.cpp: one reference counter for each kind of
-- update, through which sessions share a provider. The provider that the controller drives, and
-- all that its virtual functions reach, is a state `S` of which the controller is a part, so that
-- calls which come back to the controller are seen by the code after them.
use location_service.Base.{Bool, if◌then◌else◌}
use location_service.Base.Int.{ℤ, pos, negsuc, ltb_ℤ, eqb_ℤ, increment, decrement}

-- The virtual functions of a provider that its controller calls.
pub data Call : Type 0 where
  start_position stop_position start_heading stop_heading start_velocity stop_velocity : Call

pub record Controller : Type 0 where
  pub position_updates_counter : ℤ
  pub heading_updates_counter : ℤ
  pub velocity_updates_counter : ℤ

abbrev pub our_magic_disabling_value : ℤ
our_magic_disabling_value = negsuc 0

-- `Controller::Controller`
abbrev pub fresh : Controller
fresh = record {
  position_updates_counter = pos 0;
  heading_updates_counter = pos 0;
  velocity_updates_counter = pos 0;
}

abbrev pub switched_off : Controller
switched_off = record {
  position_updates_counter = our_magic_disabling_value;
  heading_updates_counter = our_magic_disabling_value;
  velocity_updates_counter = our_magic_disabling_value;
}

unfoldable pub are_position_updates_running : Controller → Bool
are_position_updates_running c = ltb_ℤ (pos 0) c.position_updates_counter

unfoldable pub are_heading_updates_running : Controller → Bool
are_heading_updates_running c = ltb_ℤ (pos 0) c.heading_updates_counter

unfoldable pub are_velocity_updates_running : Controller → Bool
are_velocity_updates_running c = ltb_ℤ (pos 0) c.velocity_updates_counter

-- Where a part of a state is found, and how it is written.
pub record Part (S A : Type 0) : Type 0 where
  pub get : S → A
  pub put : A → S → S

module _ {S : Type 0} (self : Part S Controller) where
  unfoldable pub enable : S → S
  enable s = self.put fresh s

module _ {S : Type 0} (self : Part S Controller) (call : Call → S → S) where
  -- A function is stopped only where the counter says, at that moment, that it runs.
  unfoldable pub stop_if : (Controller → Bool) → Call → S → S
  stop_if running c s = if running (self.get s) then call c s else s

  unfoldable pub disable : S → S
  unfolding stop_if are_position_updates_running are_heading_updates_running
      are_velocity_updates_running
  disable s =
      let s1 = stop_if are_position_updates_running stop_position s in
      let s2 = stop_if are_heading_updates_running stop_heading s1 in
      let s3 = stop_if are_velocity_updates_running stop_velocity s2 in self.put switched_off s3

  unfoldable pub start_position_updates : S → S
  unfolding increment
  start_position_updates s =
      let c = self.get s in
      let n = increment c.position_updates_counter in
      let s1 = self.put (record c { position_updates_counter = n }) s in
      if ltb_ℤ c.position_updates_counter (pos 0)
      then s
      else if eqb_ℤ n (pos 1)
      then call start_position s1
      else s1

  unfoldable pub stop_position_updates : S → S
  unfolding decrement
  stop_position_updates s =
      let c = self.get s in
      let n = decrement c.position_updates_counter in
      let s1 = self.put (record c { position_updates_counter = n }) s in
      if ltb_ℤ c.position_updates_counter (pos 0)
      then s
      else if eqb_ℤ n (pos 0)
      then call stop_position s1
      else s1

  unfoldable pub start_heading_updates : S → S
  unfolding increment
  start_heading_updates s =
      let c = self.get s in
      let n = increment c.heading_updates_counter in
      let s1 = self.put (record c { heading_updates_counter = n }) s in
      if ltb_ℤ c.heading_updates_counter (pos 0)
      then s
      else if eqb_ℤ n (pos 1)
      then call start_heading s1
      else s1

  unfoldable pub stop_heading_updates : S → S
  unfolding decrement
  stop_heading_updates s =
      let c = self.get s in
      let n = decrement c.heading_updates_counter in
      let s1 = self.put (record c { heading_updates_counter = n }) s in
      if ltb_ℤ c.heading_updates_counter (pos 0)
      then s
      else if eqb_ℤ n (pos 0)
      then call stop_heading s1
      else s1

  unfoldable pub start_velocity_updates : S → S
  unfolding increment
  start_velocity_updates s =
      let c = self.get s in
      let n = increment c.velocity_updates_counter in
      let s1 = self.put (record c { velocity_updates_counter = n }) s in
      if ltb_ℤ c.velocity_updates_counter (pos 0)
      then s
      else if eqb_ℤ n (pos 1)
      then call start_velocity s1
      else s1

  unfoldable pub stop_velocity_updates : S → S
  unfolding decrement
  stop_velocity_updates s =
      let c = self.get s in
      let n = decrement c.velocity_updates_counter in
      let s1 = self.put (record c { velocity_updates_counter = n }) s in
      if ltb_ℤ c.velocity_updates_counter (pos 0)
      then s
      else if eqb_ℤ n (pos 0)
      then call stop_velocity s1
      else s1

-- What a client may ask of a controller.
pub data Request : Type 0 where
  ask_enable ask_disable : Request
  ask : Call → Request

-- A call of the controller's public function of the same name.
unfoldable pub forward : {S : Type 0} → Part S Controller → (Call → S → S) → Call → S → S
unfolding start_position_updates stop_position_updates start_heading_updates stop_heading_updates
    start_velocity_updates stop_velocity_updates
forward self call start_position = start_position_updates self call
forward self call stop_position = stop_position_updates self call
forward self call start_heading = start_heading_updates self call
forward self call stop_heading = stop_heading_updates self call
forward self call start_velocity = start_velocity_updates self call
forward self call stop_velocity = stop_velocity_updates self call
