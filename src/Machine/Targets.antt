-- ===== src/Machine/Targets.antt =====
-- The target of the steam controller changes only by setSteamTemperature.
use openpressod.Prelude.{ℤ, Bool, List, not, ◌≡◌, ◌∙◌, ◌&&◌, if_ind}
use openpressod.Messages.{StepTarget, StepCondition}
use openpressod.Core.{Core, Readings}
use openpressod.Results.{Result, ok, err, Done}
use openpressod.Machine.Kept.{IsKept}
use openpressod.Machine.{
  StateManager, same_bool, set_power_state, start_brew, stop_brew, set_brew_temperature,
  set_steam_mode_state, reset_scales, set_brew_steps, set_auto_stop_condition, switch_off,
  switch_mode, heat_brew, heat_steam,
}

module _ {core : Core} (t : ℤ) where
  open core use {target_temperature, target-turn_on, target-turn_off}

  abbrev pub HasSteamTarget : StateManager core → Type 0
  HasSteamTarget m = target_temperature m.steam_controller ≡ t

  set_power_state-HasSteamTarget :
      (b : Bool) (r : Readings) (m : StateManager core)
      → HasSteamTarget m
      → HasSteamTarget (set_power_state b r m)
  unfolding set_power_state switch_off heat_steam heat_brew
  set_power_state-HasSteamTarget b r m v = if_ind HasSteamTarget (same_bool m.power b) v (
      if_ind HasSteamTarget m.power (target-turn_off m.steam_controller ∙ v)
        (if_ind HasSteamTarget m.steam (target-turn_on m.steam_controller ∙ v) v))

  start_brew-HasSteamTarget :
      (r : Readings) (m : StateManager core) → HasSteamTarget m → HasSteamTarget (start_brew r m).1
  unfolding start_brew
  start_brew-HasSteamTarget r m v =
      let Holds = λ (x : Done × StateManager core). HasSteamTarget x.1 in
      if_ind Holds (core.is_brewing m.brew_profiler) v
        (if_ind Holds (not m.power) v (if_ind Holds m.steam v v))

  stop_brew-HasSteamTarget :
      (r : Readings) (m : StateManager core) → HasSteamTarget m → HasSteamTarget (stop_brew r m)
  unfolding stop_brew
  stop_brew-HasSteamTarget r m v = if_ind HasSteamTarget (not (core.is_brewing m.brew_profiler)) v v

  set_brew_temperature-HasSteamTarget :
      (x : ℤ) (r : Readings) (m : StateManager core)
      → HasSteamTarget m
      → HasSteamTarget (set_brew_temperature x r m)
  unfolding set_brew_temperature
  set_brew_temperature-HasSteamTarget x r m v = if_ind HasSteamTarget (not m.steam && m.power) v v

  set_steam_mode_state-HasSteamTarget :
      (b : Bool) (r : Readings) (m : StateManager core)
      → HasSteamTarget m
      → HasSteamTarget (set_steam_mode_state b r m).1
  unfolding set_steam_mode_state switch_mode heat_brew heat_steam
  set_steam_mode_state-HasSteamTarget b r m v =
      let Holds = λ (x : Done × StateManager core). HasSteamTarget x.1 in
      if_ind Holds (same_bool m.steam b) v (
        if_ind Holds (core.is_brewing m.brew_profiler) v (
          if_ind HasSteamTarget m.power
            (if_ind HasSteamTarget m.steam (target-turn_off m.steam_controller ∙ v)
              (target-turn_on m.steam_controller ∙ v))
            v))

  reset_scales-HasSteamTarget :
      (m : StateManager core) → HasSteamTarget m → HasSteamTarget (reset_scales m).1
  unfolding reset_scales
  reset_scales-HasSteamTarget m v =
      if_ind (λ (x : Done × StateManager core). HasSteamTarget x.1)
        (core.is_brewing m.brew_profiler) v v

  set_brew_steps-HasSteamTarget :
      (l : Result (List (StepTarget × StepCondition))) (m : StateManager core)
      → HasSteamTarget m
      → HasSteamTarget (set_brew_steps l m).1
  unfolding set_brew_steps
  set_brew_steps-HasSteamTarget (ok l) m v =
      if_ind (λ (x : Done × StateManager core). HasSteamTarget x.1)
        (core.is_brewing m.brew_profiler) v v
  set_brew_steps-HasSteamTarget (err e) m v =
      if_ind (λ (x : Done × StateManager core). HasSteamTarget x.1)
        (core.is_brewing m.brew_profiler) v v

  set_auto_stop_condition-HasSteamTarget :
      (c : StepCondition) (m : StateManager core)
      → HasSteamTarget m
      → HasSteamTarget (set_auto_stop_condition c m).1
  unfolding set_auto_stop_condition
  set_auto_stop_condition-HasSteamTarget c m v =
      if_ind (λ (x : Done × StateManager core). HasSteamTarget x.1)
        (core.is_brewing m.brew_profiler) v v

  pub HasSteamTarget-IsKept : IsKept HasSteamTarget
  HasSteamTarget-IsKept = record {
    power = set_power_state-HasSteamTarget;
    start = start_brew-HasSteamTarget;
    stop = stop_brew-HasSteamTarget;
    brew_temperature = set_brew_temperature-HasSteamTarget;
    steam_mode = set_steam_mode_state-HasSteamTarget;
    scales = reset_scales-HasSteamTarget;
    steps = set_brew_steps-HasSteamTarget;
    stop_condition = set_auto_stop_condition-HasSteamTarget;
  }
