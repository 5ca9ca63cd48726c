-- ===== src/Service/Permissions.antt =====
-- The permission managers: trust_store_permission_manager.cpp, default_permission_manager.cpp and
-- always_granting_permission_manager.h.
use location_service.Base.{ℕ, Bool, ◌||◌, not, ◌==◌, Option, none, some, if◌then◌else◌}
use location_service.Criteria.{Criteria}

-- `PermissionManager::Result`
pub data Verdict : Type 0 where
  granted : Verdict
  rejected : Verdict

pub record Credentials : Type 0 where
  pub pid : ℕ
  pub uid : ℕ

abbrev pub Manager : Type 0 → Type 0
Manager Q = Criteria Q → Credentials → Verdict

unfoldable pub default_manager : {Q : Type 0} → Credentials → Manager Q
default_manager own criteria credentials =
    if not (credentials.pid == own.pid) || not (credentials.uid == own.uid)
    then granted
    else granted

unfoldable pub always_granting : {Q : Type 0} → Manager Q
always_granting criteria credentials = granted

-- `core::trust::Request::Answer`, of the trust-store library.
pub data Answer : Type 0 where
  granted : Answer
  denied : Answer

-- `core::trust::Agent::RequestParameters`, less the feature and the description, which are the same in every request.
pub record RequestParameters : Type 0 where
  pub uid : ℕ
  pub pid : ℕ
  pub profile : ℕ

-- The answer of the agent, where an exception is none.
unfoldable pub verdict_of : Option Answer → Verdict
verdict_of (some Answer.granted) = Verdict.granted
verdict_of (some denied) = rejected
verdict_of none = rejected

-- The profile of a process that AppArmor knows, and the answer of the agent; either may be an exception.
module _ (testing : Bool) (profile_of : ℕ → Option ℕ)
    (authenticate : RequestParameters → Option Answer) where
  unfoldable pub ask_agent : Credentials → Option ℕ → Verdict
  unfolding verdict_of
  ask_agent credentials none = rejected
  ask_agent credentials (some profile) =
      verdict_of
        (authenticate (record { uid = credentials.uid; pid = credentials.pid; profile = profile }))

  unfoldable pub trust_store_manager : {Q : Type 0} → Manager Q
  unfolding ask_agent
  trust_store_manager criteria credentials =
      if testing then Verdict.granted else ask_agent credentials (profile_of credentials.pid)
