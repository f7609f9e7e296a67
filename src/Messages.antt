-- ===== src/Messages.antt =====
-- The protobuf messages of openpresso_proto and the step types of libopenpresso, by the fields and
-- cases that the daemon reads and writes. Enums of proto3 are open: `unrecognized` is any value that
-- no `case` label names. A `float` is its 32-bit pattern, which only the casts of Core look into.
use openpressod.Prelude.{ℕ, ℤ, Bool, Option, List}
use Prim.Native.String.{String}

pub data HeatingStatus : Type 0 where
  disabled preheat ready overheat : HeatingStatus

pub HeatingStatus-discrete : Discrete HeatingStatus
HeatingStatus-discrete = hlevel

abbrev pub Float : Type 0
Float = ℕ

pub data TargetType : Type 0 where
  pressure flow_rate : TargetType
  unrecognized : ℕ → TargetType

pub data AdvanceType : Type 0 where
  total_time total_weight step_time : AdvanceType
  unrecognized : ℕ → AdvanceType

pub data StopType : Type 0 where
  total_time total_weight : StopType
  unrecognized : ℕ → StopType

pub record AdvanceCondition : Type 0 where
  pub kind : AdvanceType
  pub value : Float

pub record StopCondition : Type 0 where
  pub kind : StopType
  pub value : Float

pub record BrewStep : Type 0 where
  pub target_type : TargetType
  pub target_value : Float
  pub advance_condition : Option AdvanceCondition

pub record BrewProfile : Type 0 where
  pub name : String
  pub temperature : ℤ
  pub steps : List BrewStep
  pub stop_condition : Option StopCondition

pub record UserSettings : Type 0 where
  pub steam_temperature : ℤ

-- A `BrewProgress` has no step index until `set_brewstepindex`.
pub data Event : Type 0 where
  power_state : Bool → Event
  brew_state : Bool → Event
  steam_mode_state : Bool → Event
  heater_state : HeatingStatus → Event
  brew_profile : BrewProfile → Event
  user_settings : UserSettings → Event
  brew_progress : Option ℕ → Event

-- libopenpresso: step_target_t, and the conditions that end a step or a brew.
pub data StepTarget : Type 0 where
  constant_pressure : ℤ → StepTarget
  constant_flow : ℤ → StepTarget

pub data StepCondition : Type 0 where
  never : StepCondition
  on_total_time : ℤ → StepCondition
  on_weight : ℤ → StepCondition
  on_step_time : ℤ → StepCondition
