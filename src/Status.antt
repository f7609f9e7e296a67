-- ===== src/Status.antt =====
-- src/state_manager/status_manager.hpp and status_manager.cpp: the heating status and its lights.
-- A registered sensor callback is its closure: what it captured and its mutable count or time. The
-- period and the update rate are whole milliseconds. `notified` lists the calls of the status
-- callback, the latest last.
pub mod Registered
pub mod Consistent
pub mod Required
pub mod Hysteresis
pub mod Publishing
use Prim.Native.Nat.{max}
use openpressod.Prelude.{
  ℕ, ◌+◌, ◌-◌, ◌/◌, ℤ, ◌+ℤ◌, ltb_ℤ, Bool, true, false, Option, none, some, List, [], ◌∷◌, ◌++◌, ltb,
  leb, if◌then◌else◌,
}
use openpressod.Prelude.Floats.{to_float, divide, times, ceil}
use openpressod.Messages.{HeatingStatus, disabled, preheat, ready, overheat}
use openpressod.Core.{Core, Readings}
use openpressod.Leds.{LedsHandler}
use openpressod.Leds

-- The mutable variable of each of the two callbacks.
pub data Pacing : Type 0 where
  fixed_rate : (required_invocations in_range_invocations : ℕ) → Pacing
  variable_rate : (in_range_since : Option ℕ) → Pacing

pub record TemperatureCallback : Type 0 where
  pub steam_mode : Bool
  pub target : ℤ
  pub window : ℤ
  pub pacing : Pacing

pub record StatusManager (core : Core) : Type 0 where
  pub callback_installed : Bool
  pub notified : List HeatingStatus
  pub heating_status : HeatingStatus
  pub heating_status_cached : HeatingStatus
  pub brew_temperature_window : ℤ
  pub steam_temperature_window : ℤ
  pub ready_hysteresis_period : ℕ
  pub leds : LedsHandler core
  pub temperature_callback : Option TemperatureCallback

abbrev pub same : HeatingStatus → HeatingStatus → Bool
same disabled disabled = true
same preheat preheat = true
same ready ready = true
same overheat overheat = true
same _ _ = false

unfoldable pub make_status : ℤ → ℤ → ℤ → HeatingStatus
make_status temperature target window =
    if ltb_ℤ (temperature +ℤ window) target
    then preheat
    else if ltb_ℤ (target +ℤ window) temperature
    then overheat
    else ready

-- `duration_cast` to seconds of type `float` divides by 1000; the division of the two durations first
-- brings both to milliseconds of type `float`.
abbrev calls_per_period : ℕ → ℕ → ℕ
calls_per_period period rate =
    divide (times (divide (to_float period) (to_float 1000)) (to_float 1000)) (to_float rate)

unfoldable pub required_invocations : ℕ → ℕ → ℕ
required_invocations period rate = max 1 (ceil (calls_per_period period rate))

pub make_pacing : ℕ → Option ℕ → Pacing
make_pacing period (some rate) = fixed_rate (required_invocations period rate) 0
make_pacing period none = variable_rate none

-- `inRangeSince`, set to `now` if it has no value.
abbrev pub since_or : Option ℕ → ℕ → ℕ
since_or none now = now
since_or (some t) now = t

module _ {core : Core} where
  -- The constructor.
  unfoldable pub make : ℤ → ℤ → ℕ → LedsHandler core → StatusManager core
  make brew_window steam_window period leds = record {
    callback_installed = false;
    notified = [];
    heating_status = disabled;
    heating_status_cached = disabled;
    brew_temperature_window = brew_window;
    steam_temperature_window = steam_window;
    ready_hysteresis_period = period;
    leds = leds;
    temperature_callback = none;
  }

  unfoldable pub get_current_status : StatusManager core → HeatingStatus
  get_current_status s = s.heating_status

  unfoldable pub set_callback : StatusManager core → StatusManager core
  set_callback s = record s { callback_installed = true }

  unfoldable pub unregister_temperature_callback : StatusManager core → StatusManager core
  unregister_temperature_callback s = record s { temperature_callback = none }

  -- The destructor, with that of the lights, which the object owns.
  pub destroy : StatusManager core → StatusManager core
  unfolding unregister_temperature_callback
  destroy s = record (unregister_temperature_callback s) { leds = Leds.destroy s.leds }

  -- Without an installed callback the default one is called, which does nothing.
  unfoldable pub publish_status : HeatingStatus → StatusManager core → StatusManager core
  publish_status status s = if same status s.heating_status_cached then s else record s {
    heating_status_cached = status;
    heating_status = status;
    notified = if s.callback_installed then s.notified ++ status ∷ [] else s.notified;
  }

  steam_leds : HeatingStatus → LedsHandler core → LedsHandler core
  steam_leds preheat = Leds.indicate_steam_preheat
  steam_leds overheat = Leds.indicate_steam_overheat
  steam_leds _ = Leds.indicate_steam_ready

  brew_leds : HeatingStatus → LedsHandler core → LedsHandler core
  brew_leds preheat = Leds.indicate_brew_preheat
  brew_leds overheat = Leds.indicate_brew_overheat
  brew_leds _ = Leds.indicate_brew_ready

  -- `applyStatus<steamMode>`.
  unfoldable pub apply_status : Bool → HeatingStatus → StatusManager core → StatusManager core
  unfolding publish_status steam_leds brew_leds
  apply_status true status s = publish_status status (record s { leds = steam_leds status s.leds })
  apply_status false status s = publish_status status (record s { leds = brew_leds status s.leds })

  unfoldable pub disable : StatusManager core → StatusManager core
  unfolding unregister_temperature_callback publish_status
  disable s =
      let t = unregister_temperature_callback s in
      publish_status disabled (record t { leds = Leds.indicate_power_off t.leds })

  set_pacing : TemperatureCallback → Pacing → StatusManager core → StatusManager core
  set_pacing cb p s = record s { temperature_callback = some (record cb { pacing = p }) }

  -- The body of the callback of `makeFixedRateCallback`.
  fixed_rate_call :
      TemperatureCallback → ℕ → ℕ → HeatingStatus → StatusManager core → StatusManager core
  fixed_rate_call cb required count ready s =
      if same s.heating_status_cached ready
      then s
      else if ltb (count + 1) required
      then set_pacing cb (fixed_rate required (count + 1)) s
      else apply_status cb.steam_mode ready (set_pacing cb (fixed_rate required (count + 1)) s)
  fixed_rate_call cb required count status s =
      apply_status cb.steam_mode status (set_pacing cb (fixed_rate required 0) s)

  -- The body of the callback of `makeVariableRateCallback`.
  variable_rate_call :
      TemperatureCallback → Option ℕ → ℕ → HeatingStatus → StatusManager core → StatusManager core
  variable_rate_call cb since now ready s =
      if same s.heating_status_cached ready
      then s
      else if leb (since_or since now + s.ready_hysteresis_period) now
      then apply_status cb.steam_mode ready (set_pacing cb (variable_rate none) s)
      else set_pacing cb (variable_rate (some (since_or since now))) s
  variable_rate_call cb since now status s =
      apply_status cb.steam_mode status (set_pacing cb (variable_rate none) s)

  temperature_call :
      TemperatureCallback → Pacing → Readings → StatusManager core → StatusManager core
  temperature_call cb (fixed_rate required count) r =
      fixed_rate_call cb required count (make_status r.temperature cb.target cb.window)
  temperature_call cb (variable_rate since) r =
      variable_rate_call cb since r.clock (make_status r.temperature cb.target cb.window)

  -- The sensor reports a temperature to the callback that is registered, if there is one.
  pub on_temperature : Readings → StatusManager core → StatusManager core
  on_temperature r s = elim s.temperature_callback [
    | none ↦ s
    | some cb ↦ temperature_call cb cb.pacing r s
  ]

  unfoldable pub indicate : Bool → ℤ → ℤ → Readings → StatusManager core → StatusManager core
  indicate steam target window r s =
      let t =
        apply_status steam (make_status r.temperature target window)
          (unregister_temperature_callback s) in
      record t {
        temperature_callback = some (record {
          steam_mode = steam;
          target = target;
          window = window;
          pacing = make_pacing t.ready_hysteresis_period r.update_rate;
        });
      }

  unfoldable pub indicate_brew_state : ℤ → Readings → StatusManager core → StatusManager core
  indicate_brew_state target r s = indicate false target s.brew_temperature_window r s

  pub indicate_steam_state : ℤ → Readings → StatusManager core → StatusManager core
  indicate_steam_state target r s = indicate true target s.steam_temperature_window r s
