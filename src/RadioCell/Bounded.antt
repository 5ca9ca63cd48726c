-- ===== src/RadioCell/Bounded.antt =====
-- `BoundedInteger`: an `int` with a range, which throws when it is set outside the range, and which has a
-- value of its own for "invalid".
use location_service.Base.{
  ℕ, ◌*◌, ◌/◌, ltb, ◌≡◌, ◌↔◌, Bool, true, ◌&&◌, ◌||◌, Option, none, some, if◌then◌else◌, arith,
}
use location_service.Base.Int.{ℤ, pos, negsuc, ltb_ℤ, leb_ℤ, int_max, ◌-ℤ◌}

-- The template's arguments.
pub record Bounds : Type 0 where
  pub min : ℤ
  pub max : ℤ
  pub inv : ℤ

abbrev pub up_to : ℕ → ℕ → Bounds
up_to n inv = record { min = pos 0; max = pos n; inv = pos inv }

-- `MCC` and `MNC`, `LAC` and `TAC`, `Gsm::ID`, `Umts::ID` and `Lte::ID`, `PID`, `SignalStrength`.
abbrev pub country_or_network : Bounds
country_or_network = up_to 999 int_max

abbrev pub area : Bounds
area = up_to 65535 int_max

abbrev pub gsm_id : Bounds
gsm_id = up_to 65535 int_max

abbrev pub wide_id : Bounds
wide_id = up_to 268435455 int_max

abbrev pub physical : Bounds
physical = up_to 503 int_max

abbrev pub signal : Bounds
signal = up_to 31 99

unfoldable pub is_valid : Bounds → ℤ → Bool
is_valid b value = leb_ℤ b.min value && leb_ℤ value b.max

-- `BoundedInteger()`: below the minimum, whatever `inv` is.
unfoldable pub default_value : Bounds → ℤ
unfolding ◌-ℤ◌
default_value b = b.min -ℤ pos 1

-- `BoundedInteger(int)` and `set`: `none` is the exception.
unfoldable pub set : Bounds → ℤ → Option ℤ
set b new_value = if ltb_ℤ new_value b.min || ltb_ℤ b.max new_value then none else some new_value

unfoldable pub reset : Bounds → ℤ
reset b = b.inv

-- `SignalStrength::from_percent(value / 100.f)` for a whole number of percent: 31 * value / 100 is never
-- within 0.01 of a whole number but at 0 and 100, so the cast of the `float` is the exact quotient.
unfoldable pub from_percent : ℤ → ℤ
from_percent (pos n) = if ltb n 100 then pos (31 * n / 100) else pos 31
from_percent (negsuc n) = pos 0

-- A value that was set is valid, and every valid value can be set.
pub set_iff : (b : Bounds) (v : ℤ) → (set b v ≡ some v) ↔ (is_valid b v ≡ true)
unfolding set is_valid
set_iff b v = (λ h. ground arith, λ h. ground arith)

pub set-is_valid : (b : Bounds) (v w : ℤ) → set b v ≡ some w → is_valid b w ≡ true
unfolding set is_valid
set-is_valid b v w h = ground arith

pub from_percent-is_valid : (v : ℤ) → is_valid signal (from_percent v) ≡ true
unfolding from_percent is_valid
from_percent-is_valid (pos n) = ground arith
from_percent-is_valid (negsuc n) = ground arith
