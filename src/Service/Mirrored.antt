-- ===== src/Service/Mirrored.antt =====
-- What the service's properties say at all times.
use location_service.Base.{ℕ, suc, ◌-◌, ◌≤◌, ◌≡◌, arith}
use location_service.Service.Mirror.{Service}

pub at_least_four : (n : ℕ) → 4 ≤ n → (k : ℕ) × (suc (suc (suc (suc k))) ≡ n)
at_least_four n l = (n - 4, omega arith)
