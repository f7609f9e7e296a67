-- ===== src/Machine/Publishing.antt =====
-- The state manager changes its heating status only through the status callback.
use openpressod.Prelude.{ℤ, Bool, true, not, ◌&&◌, List, ◌≡◌, if_ind, arith}
use openpressod.Messages.{StepTarget, StepCondition}
use openpressod.Core.{Core, Readings}
use openpressod.Results.{Result, ok, err, Done}
use openpressod.Status.{StatusManager}
use openpressod.Status.Publishing
use openpressod.Status.Publishing.{
  Follows, disable-Follows, indicate_brew_state-Follows, indicate_steam_state-Follows,
}
use openpressod.Machine.{
  StateManager, same_bool, set_power_state, start_brew, stop_brew, set_brew_temperature,
  set_steam_temperature, set_steam_mode_state, reset_scales, set_brew_steps,
  set_auto_stop_condition, set_heating_status_change_callback, switch_off, switch_mode, heat_brew,
  heat_steam,
}

pub set_callback-installed :
    {core : Core} (m : StateManager core)
    → (set_heating_status_change_callback m).status_manager.callback_installed ≡ true
unfolding set_heating_status_change_callback
set_callback-installed m = Publishing.set_callback-installed m.status_manager

pub stop_brew_status :
    {core : Core} (r : Readings) (m : StateManager core)
    → (stop_brew r m).status_manager ≡ m.status_manager
unfolding stop_brew
stop_brew_status r m = ground arith

module _ {core : Core} (s : StatusManager core) where
  -- The status manager of `m` is what `s` became.
  abbrev pub Publishes : StateManager core → Type 0
  Publishes m = Follows s m.status_manager

  heat_steam-Publishes :
      (r : Readings) (m : StateManager core) → Publishes m → Publishes (heat_steam r m)
  unfolding heat_steam
  heat_steam-Publishes r m v = indicate_steam_state-Follows s _ r m.status_manager v

  heat_brew-Publishes :
      (r : Readings) (m : StateManager core) → Publishes m → Publishes (heat_brew r m)
  unfolding heat_brew
  heat_brew-Publishes r m v = indicate_brew_state-Follows s _ r m.status_manager v

  pub set_power_state-Publishes :
      (b : Bool) (r : Readings) (m : StateManager core)
      → Publishes m
      → Publishes (set_power_state b r m)
  unfolding set_power_state switch_off
  set_power_state-Publishes b r m v = if_ind Publishes (same_bool m.power b) v (
      if_ind Publishes m.power (disable-Follows s m.status_manager v)
        (if_ind Publishes m.steam (heat_steam-Publishes r m v) (heat_brew-Publishes r m v)))

  pub start_brew-Publishes :
      (r : Readings) (m : StateManager core) → Publishes m → Publishes (start_brew r m).1
  unfolding start_brew
  start_brew-Publishes r m v =
      let Result-Publishes = λ (x : Done × StateManager core). Publishes x.1 in
      if_ind Result-Publishes (core.is_brewing m.brew_profiler) v
        (if_ind Result-Publishes (not m.power) v (if_ind Result-Publishes m.steam v v))

  pub stop_brew-Publishes :
      (r : Readings) (m : StateManager core) → Publishes m → Publishes (stop_brew r m)
  unfolding stop_brew
  stop_brew-Publishes r m v = if_ind Publishes (not (core.is_brewing m.brew_profiler)) v v

  pub set_brew_temperature-Publishes :
      (t : ℤ) (r : Readings) (m : StateManager core)
      → Publishes m
      → Publishes (set_brew_temperature t r m)
  unfolding set_brew_temperature
  set_brew_temperature-Publishes t r m v =
      if_ind Publishes (not m.steam && m.power)
        (indicate_brew_state-Follows s t r m.status_manager v) v

  pub set_steam_temperature-Publishes :
      (t : ℤ) (r : Readings) (m : StateManager core)
      → Publishes m
      → Publishes (set_steam_temperature t r m)
  unfolding set_steam_temperature
  set_steam_temperature-Publishes t r m v =
      if_ind Publishes (m.steam && m.power) (indicate_steam_state-Follows s t r m.status_manager v)
        v

  pub set_steam_mode_state-Publishes :
      (b : Bool) (r : Readings) (m : StateManager core)
      → Publishes m
      → Publishes (set_steam_mode_state b r m).1
  unfolding set_steam_mode_state switch_mode
  set_steam_mode_state-Publishes b r m v =
      let Result-Publishes = λ (x : Done × StateManager core). Publishes x.1 in
      if_ind Result-Publishes (same_bool m.steam b) v (
        if_ind Result-Publishes (core.is_brewing m.brew_profiler) v (
          if_ind Publishes m.power
            (if_ind Publishes m.steam (heat_brew-Publishes r _ v) (heat_steam-Publishes r _ v)) v))

  pub reset_scales-Publishes : (m : StateManager core) → Publishes m → Publishes (reset_scales m).1
  unfolding reset_scales
  reset_scales-Publishes m v =
      if_ind (λ (x : Done × StateManager core). Publishes x.1) (core.is_brewing m.brew_profiler) v v

  pub set_brew_steps-Publishes :
      (l : Result (List (StepTarget × StepCondition))) (m : StateManager core)
      → Publishes m
      → Publishes (set_brew_steps l m).1
  unfolding set_brew_steps
  set_brew_steps-Publishes (ok l) m v =
      if_ind (λ (x : Done × StateManager core). Publishes x.1) (core.is_brewing m.brew_profiler) v v
  set_brew_steps-Publishes (err e) m v =
      if_ind (λ (x : Done × StateManager core). Publishes x.1) (core.is_brewing m.brew_profiler) v v

  pub set_auto_stop_condition-Publishes :
      (c : StepCondition) (m : StateManager core)
      → Publishes m
      → Publishes (set_auto_stop_condition c m).1
  unfolding set_auto_stop_condition
  set_auto_stop_condition-Publishes c m v =
      if_ind (λ (x : Done × StateManager core). Publishes x.1) (core.is_brewing m.brew_profiler) v v
