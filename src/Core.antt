-- ===== src/Core.antt =====
-- The interfaces of libopenpresso that the daemon calls, a library outside this repository
-- (interfaces/logical_output.hpp, temperature_controller.hpp, brew_profiler.hpp, weight_sensor.hpp).
-- A component is a value that its methods read and return; the laws are the documented effect of
-- the calls. No call of the library throws here.
use openpressod.Prelude.{ℕ, ℤ, ◌≡◌, Bool, true, false, List, Option}
use openpressod.Messages.{StepTarget, StepCondition, Float}
pub mod Sample

pub record Core : Type 1 where
  -- LogicalOutput: a pin, with the state that was last written to it.
  pub Output : Type 0
  pub is_active : Output → Bool
  pub activate_output : Output → Output
  pub deactivate_output : Output → Output
  pub level : Output → Bool
  pub set_state : Bool → Output → Output
  pub level-set_state : (b : Bool) (o : Output) → level (set_state b o) ≡ b
  pub is_active-set_state : (b : Bool) (o : Output) → is_active (set_state b o) ≡ is_active o
  pub is_active-activate : (o : Output) → is_active (activate_output o) ≡ true
  pub is_active-deactivate : (o : Output) → is_active (deactivate_output o) ≡ false
  -- TemperatureController.
  pub Controller : Type 0
  pub is_heating : Controller → Bool
  pub turn_on : Controller → Controller
  pub turn_off : Controller → Controller
  pub target_temperature : Controller → ℤ
  pub set_target_temperature : ℤ → Controller → Controller
  pub is_heating-turn_on : (c : Controller) → is_heating (turn_on c) ≡ true
  pub is_heating-turn_off : (c : Controller) → is_heating (turn_off c) ≡ false
  pub is_heating-set_target :
      (t : ℤ) (c : Controller) → is_heating (set_target_temperature t c) ≡ is_heating c
  pub target-turn_on : (c : Controller) → target_temperature (turn_on c) ≡ target_temperature c
  pub target-turn_off : (c : Controller) → target_temperature (turn_off c) ≡ target_temperature c
  pub target-set_target :
      (t : ℤ) (c : Controller) → target_temperature (set_target_temperature t c) ≡ t
  -- BrewProfiler.
  pub Profiler : Type 0
  pub is_brewing : Profiler → Bool
  pub activate : Profiler → Profiler
  pub deactivate : Profiler → Profiler
  pub set_steps : List (StepTarget × StepCondition) → Profiler → Profiler
  pub set_auto_stop_condition : StepCondition → Profiler → Profiler
  pub is_brewing-activate : (p : Profiler) → is_brewing (activate p) ≡ true
  pub is_brewing-deactivate : (p : Profiler) → is_brewing (deactivate p) ≡ false
  pub is_brewing-set_steps :
      (l : List (StepTarget × StepCondition)) (p : Profiler)
      → is_brewing (set_steps l p) ≡ is_brewing p
  pub is_brewing-set_auto_stop :
      (c : StepCondition) (p : Profiler) → is_brewing (set_auto_stop_condition c p) ≡ is_brewing p
  -- WeightSensor.
  pub Scale : Type 0
  pub tare : Scale → Scale
  -- The casts between `float` and the library's integers.
  pub to_millibars : Float → ℤ
  pub to_flow : Float → ℤ
  pub to_duration : Float → ℤ
  pub to_weight : Float → ℤ
  pub of_millibars : ℤ → Float

-- What the temperature sensor and the clock tell a call: the temperature in millidegrees, the
-- sensor's fixed update rate if it has one, and the steady clock, both in milliseconds.
pub record Readings : Type 0 where
  pub temperature : ℤ
  pub update_rate : Option ℕ
  pub clock : ℕ
