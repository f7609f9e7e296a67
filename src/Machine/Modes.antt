-- ===== src/Machine/Modes.antt =====
-- What each method does to the power, the steam mode and the brew state.
use openpressod.Prelude.{ℤ, Bool, false, not, ◌&&◌, ◌||◌, ◌≡◌, List, arith}
use openpressod.Messages.{StepTarget, StepCondition}
use openpressod.Core.{Core, Readings}
use openpressod.Results.{Result, ok, err}
use openpressod.Machine.{
  StateManager, set_power_state, start_brew, stop_brew, set_brew_temperature, set_steam_temperature,
  set_steam_mode_state, reset_scales, set_brew_steps, set_auto_stop_condition, switch_off,
  heat_brew, heat_steam, switch_mode,
}

-- The three states of one machine are those of another.
abbrev pub SameModes : {core : Core} → StateManager core → StateManager core → Type 0
SameModes {core} m n =
    (n.power ≡ m.power)
    × (n.steam ≡ m.steam)
    × (core.is_brewing n.brew_profiler ≡ core.is_brewing m.brew_profiler)

module _ {core : Core} where
  open core use {is_brewing, is_brewing-activate, is_brewing-deactivate}

  pub set_power_state_modes :
      (b : Bool) (r : Readings) (m : StateManager core)
      → let n = set_power_state b r m in
        (n.power ≡ b)
        × (n.steam ≡ m.steam)
        × (is_brewing n.brew_profiler ≡ (is_brewing m.brew_profiler && not (m.power && not b)))
  unfolding set_power_state switch_off heat_brew heat_steam
  set_power_state_modes b r m = ground (arith, is_brewing-deactivate m.brew_profiler)

  pub start_brew_modes :
      (r : Readings) (m : StateManager core)
      → let (x, n) = start_brew r m in
        (n.power ≡ m.power)
        × (n.steam ≡ m.steam)
        × (is_brewing n.brew_profiler ≡ (is_brewing m.brew_profiler || m.power && not m.steam))
  unfolding start_brew
  start_brew_modes r m = ground (arith, is_brewing-activate m.brew_profiler)

  pub stop_brew_modes :
      (r : Readings) (m : StateManager core)
      → let n = stop_brew r m in
        (n.power ≡ m.power) × (n.steam ≡ m.steam) × (is_brewing n.brew_profiler ≡ false)
  unfolding stop_brew
  stop_brew_modes r m = ground (arith, is_brewing-deactivate m.brew_profiler)

  pub set_steam_mode_state_modes :
      (b : Bool) (r : Readings) (m : StateManager core)
      → let (x, n) = set_steam_mode_state b r m in
        (n.power ≡ m.power)
        × (n.steam ≡ elim x [ ok a ↦ b | err e ↦ m.steam ])
        × (is_brewing n.brew_profiler ≡ is_brewing m.brew_profiler)
  unfolding set_steam_mode_state switch_mode heat_brew heat_steam
  set_steam_mode_state_modes b r m = ground arith

  pub set_brew_temperature_modes :
      (t : ℤ) (r : Readings) (m : StateManager core) → SameModes m (set_brew_temperature t r m)
  unfolding set_brew_temperature
  set_brew_temperature_modes t r m = ground arith

  pub set_steam_temperature_modes :
      (t : ℤ) (r : Readings) (m : StateManager core) → SameModes m (set_steam_temperature t r m)
  unfolding set_steam_temperature
  set_steam_temperature_modes t r m = ground arith

  pub reset_scales_modes : (m : StateManager core) → SameModes m (reset_scales m).1
  unfolding reset_scales
  reset_scales_modes m = ground arith

  pub set_brew_steps_modes :
      (l : Result (List (StepTarget × StepCondition))) (m : StateManager core)
      → SameModes m (set_brew_steps l m).1
  unfolding set_brew_steps
  set_brew_steps_modes (ok l) m = ground (arith, core.is_brewing-set_steps l m.brew_profiler)
  set_brew_steps_modes (err e) m = ground arith

  pub set_auto_stop_condition_modes :
      (c : StepCondition) (m : StateManager core) → SameModes m (set_auto_stop_condition c m).1
  unfolding set_auto_stop_condition
  set_auto_stop_condition_modes c m =
      ground (arith, core.is_brewing-set_auto_stop c m.brew_profiler)
