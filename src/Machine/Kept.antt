-- ===== src/Machine/Kept.antt =====
-- What every method of the state manager keeps, the setting of the steam temperature apart.
use openpressod.Prelude.{ℤ, Bool, List}
use openpressod.Messages.{StepTarget, StepCondition}
use openpressod.Core.{Core, Readings}
use openpressod.Results.{Result}
use openpressod.Status.{StatusManager}
use openpressod.Machine.{
  StateManager, set_power_state, start_brew, stop_brew, set_brew_temperature, set_steam_mode_state,
  reset_scales, set_brew_steps, set_auto_stop_condition,
}
use openpressod.Machine.Safety.{
  IsSafe, set_power_state-IsSafe, start_brew-IsSafe, stop_brew-IsSafe, set_brew_temperature-IsSafe,
  set_steam_mode_state-IsSafe, reset_scales-IsSafe, set_brew_steps-IsSafe,
  set_auto_stop_condition-IsSafe,
}
use openpressod.Machine.Publishing.{
  Publishes, set_power_state-Publishes, start_brew-Publishes, stop_brew-Publishes,
  set_brew_temperature-Publishes, set_steam_mode_state-Publishes, reset_scales-Publishes,
  set_brew_steps-Publishes, set_auto_stop_condition-Publishes,
}

pub record IsKept {core : Core} (P : StateManager core → Type 0) : Type 0 where
  pub power : (b : Bool) (r : Readings) (m : StateManager core) → P m → P (set_power_state b r m)
  pub start : (r : Readings) (m : StateManager core) → P m → P (start_brew r m).1
  pub stop : (r : Readings) (m : StateManager core) → P m → P (stop_brew r m)
  pub brew_temperature :
      (t : ℤ) (r : Readings) (m : StateManager core) → P m → P (set_brew_temperature t r m)
  pub steam_mode :
      (b : Bool) (r : Readings) (m : StateManager core) → P m → P (set_steam_mode_state b r m).1
  pub scales : (m : StateManager core) → P m → P (reset_scales m).1
  pub steps :
      (l : Result (List (StepTarget × StepCondition))) (m : StateManager core)
      → P m
      → P (set_brew_steps l m).1
  pub stop_condition :
      (c : StepCondition) (m : StateManager core) → P m → P (set_auto_stop_condition c m).1

pub IsSafe-IsKept : {core : Core} → IsKept {core = core} IsSafe
IsSafe-IsKept = record {
  power = set_power_state-IsSafe;
  start = start_brew-IsSafe;
  stop = stop_brew-IsSafe;
  brew_temperature = set_brew_temperature-IsSafe;
  steam_mode = set_steam_mode_state-IsSafe;
  scales = reset_scales-IsSafe;
  steps = set_brew_steps-IsSafe;
  stop_condition = set_auto_stop_condition-IsSafe;
}

pub Publishes-IsKept : {core : Core} (s : StatusManager core) → IsKept (Publishes s)
Publishes-IsKept s = record {
  power = set_power_state-Publishes s;
  start = start_brew-Publishes s;
  stop = stop_brew-Publishes s;
  brew_temperature = set_brew_temperature-Publishes s;
  steam_mode = set_steam_mode_state-Publishes s;
  scales = reset_scales-Publishes s;
  steps = set_brew_steps-Publishes s;
  stop_condition = set_auto_stop_condition-Publishes s;
}
