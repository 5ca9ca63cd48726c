-- ===== src/Tests/Samples.antt =====
-- The parameters of the models at concrete values.
use Prim.Native.String.{String}
use mathlib.Core.Option.{some-ne-none}
use location_service.Base.{
  ◌<◌, sym, ℕ, ◌==◌, ◌≡◌, ◌≢◌, ltb, leb, Bool, true, false, not, Option, none, some, [], arith, ap,
}
use location_service.Measure.{Compare, IsNumeric}
use location_service.Engine.State.{
  Status, SatelliteState, ReportingState, ProviderState, Property, Properties,
}
use location_service.Session
use location_service.Settings.{Tree, ServiceState}
use location_service.Service.Mirror.{Signals}

-- Whole numbers for the quantities.
instance abbrev pub whole : Compare ℕ
whole = record { lt = ltb; le = leb; eq = ◌==◌ }

pub whole_laws : IsNumeric ℕ
whole_laws = record {
  lt-le = λ a b. ground arith;
  le_refl = λ a. ground arith;
  le_trans = λ a b c h k. ground arith;
  le_total = λ a b. ground arith;
}

pub differ : {T : Type 0} (number : T → ℕ) (a b : T) → not (number a == number b) ≡ true → a ≢ b
differ number a b h q = let k = ap number q in ground arith

pub emitted :
    {T : Type 0} (number : T → ℕ)
    → ((a b : T) → number a ≡ number b → a ≡ b)
    → (a b : T) → a ≢ b
    → not (number a == number b) ≡ true
emitted number inj a b n = let k = λ (q : number a ≡ number b). n (inj a b q) in ground arith

-- A property that emits where the two values have different numbers.
abbrev pub by_number :
    {T : Type 0} (number : T → ℕ) → ((a b : T) → number a ≡ number b → a ≡ b) → Property T
by_number number inj = record {
  emits = λ a b. not (number a == number b);
  emits_iff = λ a b. (differ number a b, emitted number inj a b);
}

abbrev pub number_of_status : Status → ℕ
number_of_status Status.off = 0
number_of_status Status.on = 1
number_of_status Status.active = 2

pub status_inj : (a b : Status) → number_of_status a ≡ number_of_status b → a ≡ b
status_inj a b h = ground arith

abbrev pub number_of_satellite : SatelliteState → ℕ
number_of_satellite SatelliteState.off = 0
number_of_satellite SatelliteState.on = 1

pub satellite_inj : (a b : SatelliteState) → number_of_satellite a ≡ number_of_satellite b → a ≡ b
satellite_inj a b h = ground arith

abbrev pub number_of_reporting : ReportingState → ℕ
number_of_reporting ReportingState.off = 0
number_of_reporting ReportingState.on = 1

pub reporting_inj : (a b : ReportingState) → number_of_reporting a ≡ number_of_reporting b → a ≡ b
reporting_inj a b h = ground arith

abbrev pub number_of_provider : ProviderState → ℕ
number_of_provider ProviderState.enabled = 0
number_of_provider ProviderState.active = 1

pub provider_inj : (a b : ProviderState) → number_of_provider a ≡ number_of_provider b → a ≡ b
provider_inj a b h = ground arith

abbrev pub number_of_session : Session.Status → ℕ
number_of_session Session.disabled = 0
number_of_session Session.enabled = 1

pub session_inj : (a b : Session.Status) → number_of_session a ≡ number_of_session b → a ≡ b
session_inj a b h = ground arith

abbrev pub properties : Properties
properties = record {
  status = by_number number_of_status status_inj;
  satellite = by_number number_of_satellite satellite_inj;
  reporting = by_number number_of_reporting reporting_inj;
  provider = by_number number_of_provider provider_inj;
  engine_state_slots = λ s e. e;
}

abbrev pub session_status : Property Session.Status
session_status = by_number number_of_session session_inj

-- A tree with room for one value.
abbrev pub count_one : Option String → String → ℕ
count_one none k = 0
count_one (some v) k = 1

pub stored : (u : Option String) (v : String) → some (some v) ≡ some u → u ≡ some v
stored u v e = cc

pub counted : (u : Option String) (k v : String) → some (some v) ≡ some u → 0 < count_one u k
counted none k v e = absurd (some-ne-none v (sym (stored none v e)))
counted (some w) k v e = omega arith

abbrev pub one_value : Tree
one_value = record {
  T = Option String;
  count = count_one;
  get = λ t k. t;
  put = λ t k v. some (some v);
  get_put = λ t u k v h e. stored u v e;
  count_put = λ t u k v h e. counted u k v e;
}

abbrev pub number_of_flag : Bool → ℕ
number_of_flag false = 0
number_of_flag true = 1

pub flag_inj : (a b : Bool) → number_of_flag a ≡ number_of_flag b → a ≡ b
flag_inj a b h = ground arith

abbrev pub flag : Property Bool
flag = by_number number_of_flag flag_inj

abbrev pub number_of_state : ServiceState → ℕ
number_of_state ServiceState.disabled = 0
number_of_state ServiceState.enabled = 1
number_of_state ServiceState.active = 2

pub state_inj : (a b : ServiceState) → number_of_state a ≡ number_of_state b → a ≡ b
state_inj a b h = ground arith

-- The properties of the service.
abbrev pub signals : Signals
signals = record {
  flag = flag;
  state = by_number number_of_state state_inj;
  status = by_number number_of_status status_inj;
  satellite = by_number number_of_satellite satellite_inj;
  reporting = by_number number_of_reporting reporting_inj;
  reacts = λ v s. [];
  reacts_to_satellites = λ v s. [];
}
