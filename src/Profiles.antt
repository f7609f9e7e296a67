-- ===== src/Profiles.antt =====
-- src/state_manager/brew_profile_manager.hpp and brew_profile_manager.cpp: the brew profile, its
-- file, and how it is handed to the state manager. Log messages are left out.
pub mod Valid
pub mod Converts
pub mod Apply
use Prim.Native.String.{String}
use openpressod.Prelude.{ℤ, pos, Bool, Option, none, some, List, [], ◌∷◌, if◌then◌else◌}
use openpressod.Messages.{
  Float, BrewProfile, BrewStep, AdvanceType, StopCondition, StopType, TargetType, StepTarget,
  constant_pressure, constant_flow, StepCondition, never, on_total_time, on_weight, on_step_time,
}
use openpressod.Core.{Core, Readings}
use openpressod.Results.{
  Result, ok, err, Done, done, ◌>>=◌, and_then, no_step_target, unknown_advance_condition,
  unknown_stop_condition, cannot_open_to_read, cannot_read, cannot_deserialize, cannot_serialize,
  cannot_open_to_write, cannot_write,
}
use openpressod.Files.{File, unreadable, broken, content, Write, refused, failed, finished, Json}
use openpressod.Machine.{
  StateManager, set_brew_temperature, set_brew_steps, set_auto_stop_condition,
}

-- `profile_file` is the file at `m_profilePath`.
pub record BrewProfileManager : Type 0 where
  pub profile_file : File
  pub current_profile : BrewProfile
  pub default_profile : BrewProfile

-- A message as its constructor leaves it.
abbrev pub empty_profile : BrewProfile
empty_profile = record { name = ""; temperature = pos 0; steps = []; stop_condition = none }

-- `brewTemperature()` and `brewPressure()` of the configuration.
unfoldable pub make_default_profile :
    (core : Core) → (brew_temperature brew_pressure : ℤ) → BrewProfile
make_default_profile core brew_temperature brew_pressure = record {
  name = "";
  temperature = brew_temperature;
  steps =
      record {
        target_type = TargetType.pressure;
        target_value = core.of_millibars brew_pressure;
        advance_condition = none;
      }
      ∷ [];
  stop_condition = none;
}

-- The constructor.
unfoldable pub make :
    (core : Core) → (brew_temperature brew_pressure : ℤ) → File → BrewProfileManager
unfolding make_default_profile
make core brew_temperature brew_pressure file = record {
  profile_file = file;
  current_profile = empty_profile;
  default_profile = make_default_profile core brew_temperature brew_pressure;
}

unfoldable pub get_profile : BrewProfileManager → BrewProfile
get_profile m = m.current_profile

unfoldable pub load_default_profile : BrewProfileManager → BrewProfileManager
load_default_profile m = record m { current_profile = m.default_profile }

module _ (json : Json) where
  unfoldable pub parsed : Bool × BrewProfile → BrewProfileManager → Done × BrewProfileManager
  parsed (good, p) m =
      (if good then done else err cannot_deserialize, record m { current_profile = p })

  unfoldable pub read_profile : File → BrewProfileManager → Done × BrewProfileManager
  unfolding parsed
  read_profile unreadable m = (err cannot_open_to_read, m)
  read_profile broken m = (err cannot_read, m)
  read_profile (content s) m = parsed (json.parse_profile s) m

  unfoldable pub load_saved_profile : BrewProfileManager → Done × BrewProfileManager
  unfolding read_profile
  load_saved_profile m = read_profile m.profile_file m

  unfoldable pub write_profile : Write → BrewProfileManager → Done × BrewProfileManager
  write_profile refused m = (err cannot_open_to_write, m)
  write_profile (failed f) m = (err cannot_write, record m { profile_file = f })
  write_profile (finished f) m = (done, record m { profile_file = f })

  -- `w` tells how the write of the printed text goes.
  unfoldable pub save_profile :
      BrewProfile → (String → Write) → BrewProfileManager → Done × BrewProfileManager
  unfolding write_profile
  save_profile p w m =
      let n = record m { current_profile = p } in
      elim (json.print_profile p) [
        | none ↦ (err cannot_serialize, n)
        | some s ↦ write_profile (w s) n
      ]

module _ (core : Core) where
  target_of : TargetType → Float → Result StepTarget
  target_of TargetType.pressure v = ok (constant_pressure (core.to_millibars v))
  target_of TargetType.flow_rate v = ok (constant_flow (core.to_flow v))
  target_of (TargetType.unrecognized n) v = err no_step_target

  pub get_step_target : BrewStep → Result StepTarget
  unfolding target_of
  get_step_target s = target_of s.target_type s.target_value

  condition_of : AdvanceType → Float → Result StepCondition
  condition_of AdvanceType.total_time v = ok (on_total_time (core.to_duration v))
  condition_of AdvanceType.total_weight v = ok (on_weight (core.to_weight v))
  condition_of AdvanceType.step_time v = ok (on_step_time (core.to_duration v))
  condition_of (AdvanceType.unrecognized n) v = err unknown_advance_condition

  pub get_step_condition : BrewStep → Result StepCondition
  unfolding condition_of
  get_step_condition s = elim s.advance_condition [
    | none ↦ ok never
    | some c ↦ condition_of c.kind c.value
  ]

  -- The steps as the state manager reads them from the transformed range.
  pub transform_steps : List BrewStep → Result (List (StepTarget × StepCondition))
  transform_steps [] = ok []
  transform_steps (s ∷ l) = get_step_target s >>= λ t.
      get_step_condition s >>= λ c. transform_steps l >>= λ r. ok ((t, c) ∷ r)

  stop_rule_of : StopType → Float → Result StepCondition
  stop_rule_of StopType.total_time v = ok (on_total_time (core.to_duration v))
  stop_rule_of StopType.total_weight v = ok (on_weight (core.to_weight v))
  stop_rule_of (StopType.unrecognized n) v = err unknown_stop_condition

  pub stop_rule : Option StopCondition → Result StepCondition
  unfolding stop_rule_of
  stop_rule none = ok never
  stop_rule (some c) = stop_rule_of c.kind c.value

module _ {core : Core} where
  -- `BrewProfileManager::setAutoStopCondition`.
  pub set_stop_condition : Option StopCondition → StateManager core → Done × StateManager core
  set_stop_condition c s = elim (stop_rule core c) [
    | ok rule ↦ set_auto_stop_condition rule s
    | err e ↦ (err e, s)
  ]

  unfoldable pub apply_brew_profile :
      Readings → BrewProfileManager → StateManager core → Done × StateManager core
  apply_brew_profile r m s =
      let p = m.current_profile in
      and_then
        (set_brew_steps (transform_steps core p.steps) (set_brew_temperature p.temperature r s))
        (set_stop_condition p.stop_condition)
