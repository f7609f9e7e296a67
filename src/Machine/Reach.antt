-- ===== src/Machine/Reach.antt =====
-- Every history of the state manager: calls of its methods, temperatures reported by the sensor, and
-- a profiler that may stop or be reconfigured at any time, but starts only when it is told to.
use openpressod.Prelude.{ℕ, ℤ, Bool, true, false, ◌&&◌, ◌≡◌, List, arith}
use openpressod.Messages.{StepTarget, StepCondition, disabled}
use openpressod.Core.{Core, Readings}
use openpressod.Results.{Result}
use openpressod.Leds.{LedsHandler}
use openpressod.Timer.{is_running}
use openpressod.Status.{StatusManager, on_temperature}
use openpressod.Status
use openpressod.Status.Consistent.{make-IsConsistent, Dark}
use openpressod.Status.Registered.{make-shown}
use openpressod.Machine.Safety.{
  IsSafe, set_power_state-IsSafe, start_brew-IsSafe, stop_brew-IsSafe, set_brew_temperature-IsSafe,
  set_steam_temperature-IsSafe, set_steam_mode_state-IsSafe, reset_scales-IsSafe,
  set_brew_steps-IsSafe, set_auto_stop_condition-IsSafe, set_callback-IsSafe, sense-IsSafe,
}
use openpressod.Machine.{
  StateManager, make, set_power_state, start_brew, stop_brew, set_brew_temperature,
  set_steam_temperature, set_steam_mode_state, reset_scales, set_brew_steps,
  set_auto_stop_condition, set_heating_status_change_callback, heating_status,
}

pub data Step (core : Core) (m : StateManager core) : StateManager core → Type 0 where
  power : (b : Bool) (r : Readings) → Step core m (set_power_state b r m)
  start : (r : Readings) → Step core m (start_brew r m).1
  stop : (r : Readings) → Step core m (stop_brew r m)
  brew_temperature : (t : ℤ) (r : Readings) → Step core m (set_brew_temperature t r m)
  steam_temperature : (t : ℤ) (r : Readings) → Step core m (set_steam_temperature t r m)
  steam_mode : (b : Bool) (r : Readings) → Step core m (set_steam_mode_state b r m).1
  scales : Step core m (reset_scales m).1
  steps : (l : Result (List (StepTarget × StepCondition))) → Step core m (set_brew_steps l m).1
  stop_condition : (c : StepCondition) → Step core m (set_auto_stop_condition c m).1
  callback : Step core m (set_heating_status_change_callback m)
  sense :
      (r : Readings) → Step core m (record m { status_manager = on_temperature r m.status_manager })
  profiler :
      (p : core.Profiler)
      → (core.is_brewing p ≡ true → core.is_brewing m.brew_profiler ≡ true)
      → Step core m (record m { brew_profiler = p })

pub data Reach (core : Core) (m : StateManager core) : StateManager core → Type 0 where
  here : Reach core m m
  next : {n k : StateManager core} → Reach core m n → Step core n k → Reach core m k

-- Nothing is on when the daemon starts.
pub record AtRest (core : Core) (p : core.Profiler) (brew steam : core.Controller) : Type 0 where
  pub not_brewing : core.is_brewing p ≡ false
  pub brew_off : core.is_heating brew ≡ false
  pub steam_off : core.is_heating steam ≡ false

module _ {core : Core} where
  Step-IsSafe : {m n : StateManager core} → Step core m n → IsSafe m → IsSafe n
  Step-IsSafe {m} (power b r) v = set_power_state-IsSafe b r m v
  Step-IsSafe {m} (start r) v = start_brew-IsSafe r m v
  Step-IsSafe {m} (stop r) v = stop_brew-IsSafe r m v
  Step-IsSafe {m} (brew_temperature t r) v = set_brew_temperature-IsSafe t r m v
  Step-IsSafe {m} (steam_temperature t r) v = set_steam_temperature-IsSafe t r m v
  Step-IsSafe {m} (steam_mode b r) v = set_steam_mode_state-IsSafe b r m v
  Step-IsSafe {m} scales v = reset_scales-IsSafe m v
  Step-IsSafe {m} (steps l) v = set_brew_steps-IsSafe l m v
  Step-IsSafe {m} (stop_condition c) v = set_auto_stop_condition-IsSafe c m v
  Step-IsSafe {m} callback v = set_callback-IsSafe m v
  Step-IsSafe {m} (sense r) v = sense-IsSafe r m v
  Step-IsSafe {m} (profiler p h) v = ground arith

  pub Reach-IsSafe : {m n : StateManager core} → IsSafe m → Reach core m n → IsSafe n
  Reach-IsSafe v here = v
  Reach-IsSafe v (next r s) = Step-IsSafe s (Reach-IsSafe v r)

  pub make-IsSafe :
      (button : Bool) (p : core.Profiler) (brew steam : core.Controller) (w : core.Scale)
      (bw sw : ℤ) (period : ℕ) (leds : LedsHandler core)
      → AtRest core p brew steam
      → Dark leds
      → IsSafe (make button p brew steam w (Status.make bw sw period leds))
  unfolding make
  make-IsSafe button p brew steam w bw sw period leds v d =
      ground (arith, make-IsConsistent bw sw period leds d, make-shown bw sw period leds)

  abbrev pub Exclusive : StateManager core → Type 0
  Exclusive m =
      ((core.is_heating m.brew_temperature_controller && core.is_heating m.steam_controller)
        ≡ false)
      × (core.is_brewing m.brew_profiler ≡ true
          → (m.power ≡ true)
            × (m.steam ≡ false)
            × (core.is_heating m.brew_temperature_controller ≡ true)
            × (is_running m.brew_timer ≡ true))
      × (m.power ≡ false
          → (core.is_heating m.brew_temperature_controller ≡ false)
            × (core.is_heating m.steam_controller ≡ false)
            × (core.is_brewing m.brew_profiler ≡ false)
            × (core.level m.status_manager.leds.power ≡ false)
            × (heating_status m ≡ disabled))

  pub IsSafe-Exclusive : (m : StateManager core) → IsSafe m → Exclusive m
  unfolding heating_status Status.get_current_status
  IsSafe-Exclusive m v = (ground arith, λ h. ground arith, λ h. ground arith)

  -- From a start at rest with the lights out, after any history of calls, sensor readings and
  -- spontaneous stops of the profiler: the two heaters are never on together; while a brew runs the
  -- power is on, steam mode is off, the brew heater is on and the brew timer runs; while the power
  -- is off both heaters are off, nothing brews, the power light is out and the heating status is
  -- DISABLED.
  pub Reach-safe :
      (button : Bool) (p : core.Profiler) (brew steam : core.Controller) (w : core.Scale)
      (bw sw : ℤ) (period : ℕ) (leds : LedsHandler core) (m : StateManager core)
      → AtRest core p brew steam
      → Dark leds
      → Reach core (make {core = core} button p brew steam w (Status.make bw sw period leds)) m
      → Exclusive m
  Reach-safe button p brew steam w bw sw period leds m v d r =
      IsSafe-Exclusive m (Reach-IsSafe (make-IsSafe button p brew steam w bw sw period leds v d) r)
