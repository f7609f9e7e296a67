-- ===== src/ConfigMaker/Wiring.antt =====
-- How the components refer to one another: each reference names a component that is there and is of
-- the kind that the field is for.
use text.Mathlib.Text.{◌==◌}
use openpressod.Prelude.{
  ℕ, zero, suc, Bool, true, not, ◌&&◌, Option, none, some, List, [], ◌∷◌, map, ◌≡◌, refl, sym,
  arith, if◌then◌else◌,
}
use openpressod.Results.{Result, ok, >>=-returns}
use openpressod.Config.{ConfigLibrary}
use openpressod.ConfigMaker.Labels.{
  pressure_sensor_label, temperature_sensor_label, ac_sensor_label, weight_sensor_label,
  internal_flow_sensor_label, power_button_label, brew_button_label, steam_button_label,
  power_led_label, brew_led_label, steam_led_label, pump_driver_label, heater_driver_label,
  valve_driver_label, pump_power_controller_label, heater_power_controller_label,
  pressure_controller_label, flow_rate_controller_label, internal_flow_rate_controller_label,
  brew_temperature_controller_label, steam_preheat_temperature_controller_label,
  steam_active_temperature_controller_label, brew_profiler_label, steam_controller_label,
}
use openpressod.ConfigMaker.Components.{
  Label, Component, ads1115_pressure_sensor, max31856_temperature_sensor, nau7802_weight_sensor,
  ac_zero_cross_sensor, vibro_pump_flow_sensor, logical_input_pin, logical_output_pin,
  pulse_controlled_device, pulse_power_controller, pulse_pressure_controller,
  integral_flow_rate_controller, vibro_pump_flow_controller, temperature_pid_controller,
  brew_profiler, steam_controller, ConfigEntry,
}
use openpressod.ConfigMaker.{
  in_order, component_configs, make_pressure_sensor_config, make_temperature_sensor_config,
  make_weight_sensor_config, make_ac_sensor_config, make_internal_flow_sensor_config,
  make_button_config, make_led_config, make_pump_driver_config, make_heater_driver_config,
  make_valve_driver_config, make_pump_power_controller_config, make_heater_power_controller_config,
  make_pressure_controller_config, make_flow_rate_controller_config,
  make_internal_flow_rate_controller_config, make_brew_temperature_controller_config,
  make_steam_preheat_temperature_controller_config, make_steam_active_temperature_controller_config,
  make_brew_profiler_config, make_steam_controller_config,
}

-- What a component is used as.
pub data Role : Type 0 where
  pressure_source temperature_source weight_source ac_source flow_source : Role
  digital_input digital_output pulse_device power_control : Role
  pressure_control flow_control temperature_control profiler : Role

pub record Shape : Type 0 where
  pub label : Label
  pub role : Role
  pub uses : List (Label × Role)

abbrev pub flow_counter_uses : Option Label → List (Label × Role)
flow_counter_uses none = []
flow_counter_uses (some l) = (l, flow_source) ∷ []

module _ {lib : ConfigLibrary} where
  abbrev pub role_of : Component lib → Role
  role_of (ads1115_pressure_sensor a p) = pressure_source
  role_of (max31856_temperature_sensor d p lo hi) = temperature_source
  role_of (nau7802_weight_sensor a p s t) = weight_source
  role_of (ac_zero_cross_sensor p) = ac_source
  role_of (vibro_pump_flow_sensor s p v q) = flow_source
  role_of (logical_input_pin a d p i) = digital_input
  role_of (logical_output_pin a s i) = digital_output
  role_of (pulse_controlled_device p z) = pulse_device
  role_of (pulse_power_controller d c) = power_control
  role_of (pulse_pressure_controller c s) = pressure_control
  role_of (integral_flow_rate_controller c s f) = flow_control
  role_of (vibro_pump_flow_controller s f) = flow_control
  role_of (temperature_pid_controller c s p e f) = temperature_control
  role_of (brew_profiler u p f v w) = profiler
  role_of (steam_controller p t f u a b c d e) = temperature_control

  -- The labels in its fields, each with the kind of component that the field is for.
  abbrev pub uses_of : Component lib → List (Label × Role)
  uses_of (vibro_pump_flow_sensor s p v q) = (s, pressure_source) ∷ (p, pulse_device) ∷ []
  uses_of (pulse_controlled_device p z) = (z, ac_source) ∷ []
  uses_of (pulse_power_controller d c) = (d, pulse_device) ∷ []
  uses_of (pulse_pressure_controller c s) = (c, pulse_device) ∷ (s, pressure_source) ∷ []
  uses_of (integral_flow_rate_controller c s f) = (c, power_control) ∷ (s, weight_source) ∷ []
  uses_of (vibro_pump_flow_controller s f) = (s, flow_source) ∷ []
  uses_of (temperature_pid_controller c s p e f) =
      (c, power_control) ∷ (s, temperature_source) ∷ flow_counter_uses f
  uses_of (brew_profiler u p f v w) =
      (p, pressure_control) ∷ (f, flow_control) ∷ (v, digital_output) ∷ (w, weight_source) ∷ []
  uses_of (steam_controller p t f u a b c d e) =
      (a, temperature_control)
      ∷ (b, temperature_control)
      ∷ (c, temperature_source)
      ∷ (d, pressure_source)
      ∷ (e, flow_control)
      ∷ []
  uses_of _ = []

  abbrev pub shape : ConfigEntry lib → Shape
  shape e = record { label = e.label; role = role_of e.component; uses = uses_of e.component }

-- The first component of that label.
unfoldable pub find_role : Label → List Shape → Option Role
find_role l [] = none
find_role l (s ∷ r) = if s.label == l then some s.role else find_role l r

-- Every one of these labels names a component of its role.
abbrev pub Resolved : List (Label × Role) → List Shape → Type 0
Resolved [] all = Unit
Resolved ((l, r) ∷ k) all = (find_role l all ≡ some r) × Resolved k all

abbrev pub AllResolved : List Shape → List Shape → Type 0
AllResolved [] all = Unit
AllResolved (s ∷ k) all = Resolved s.uses all × AllResolved k all

-- No label twice.
unfoldable pub fresh : Label → List Shape → Bool
fresh l [] = true
fresh l (s ∷ k) = not (s.label == l) && fresh l k

unfoldable pub distinct : List Shape → Bool
distinct [] = true
distinct (s ∷ k) = fresh s.label k && distinct k

-- What is left when every component whose uses are all built has been taken away, `n` times: the
-- components that cannot be built if nothing is left out of the count.
unfoldable pub all_built : List (Label × Role) → List Shape → Bool
all_built [] left = true
all_built ((l, r) ∷ k) left = fresh l left && all_built k left

unfoldable pub not_built : List Shape → List Shape → List Shape
not_built [] left = []
not_built (s ∷ k) left =
    let rest = not_built k left in if all_built s.uses left then rest else s ∷ rest

unfoldable pub left_after : ℕ → List Shape → List Shape
left_after zero left = left
left_after (suc n) left = left_after n (not_built left left)

-- The shapes that the source gives.
abbrev pub shape_of : Label → Role → List (Label × Role) → Shape
shape_of l r u = record { label = l; role = r; uses = u }

abbrev pub wiring : List Shape
wiring =
    shape_of pressure_sensor_label pressure_source []
    ∷ shape_of temperature_sensor_label temperature_source []
    ∷ shape_of weight_sensor_label weight_source []
    ∷ shape_of ac_sensor_label ac_source []
    ∷ shape_of internal_flow_sensor_label flow_source
        ((pressure_sensor_label, pressure_source) ∷ (pump_driver_label, pulse_device) ∷ [])
    ∷ shape_of power_button_label digital_input []
    ∷ shape_of brew_button_label digital_input []
    ∷ shape_of steam_button_label digital_input []
    ∷ shape_of power_led_label digital_output []
    ∷ shape_of brew_led_label digital_output []
    ∷ shape_of steam_led_label digital_output []
    ∷ shape_of pump_driver_label pulse_device ((ac_sensor_label, ac_source) ∷ [])
    ∷ shape_of heater_driver_label pulse_device ((ac_sensor_label, ac_source) ∷ [])
    ∷ shape_of valve_driver_label digital_output []
    ∷ shape_of pump_power_controller_label power_control ((pump_driver_label, pulse_device) ∷ [])
    ∷ shape_of heater_power_controller_label power_control
        ((heater_driver_label, pulse_device) ∷ [])
    ∷ shape_of pressure_controller_label pressure_control
        ((pump_driver_label, pulse_device) ∷ (pressure_sensor_label, pressure_source) ∷ [])
    ∷ shape_of flow_rate_controller_label flow_control
        ((pump_power_controller_label, power_control) ∷ (weight_sensor_label, weight_source) ∷ [])
    ∷ shape_of internal_flow_rate_controller_label flow_control
        ((internal_flow_sensor_label, flow_source) ∷ [])
    ∷ shape_of brew_temperature_controller_label temperature_control (
        (heater_power_controller_label, power_control)
        ∷ (temperature_sensor_label, temperature_source)
        ∷ (internal_flow_sensor_label, flow_source)
        ∷ [])
    ∷ shape_of steam_preheat_temperature_controller_label temperature_control (
        (heater_power_controller_label, power_control)
        ∷ (temperature_sensor_label, temperature_source)
        ∷ [])
    ∷ shape_of steam_active_temperature_controller_label temperature_control (
        (heater_power_controller_label, power_control)
        ∷ (temperature_sensor_label, temperature_source)
        ∷ [])
    ∷ shape_of brew_profiler_label profiler (
        (pressure_controller_label, pressure_control)
        ∷ (flow_rate_controller_label, flow_control)
        ∷ (valve_driver_label, digital_output)
        ∷ (weight_sensor_label, weight_source)
        ∷ [])
    ∷ shape_of steam_controller_label temperature_control (
        (steam_preheat_temperature_controller_label, temperature_control)
        ∷ (steam_active_temperature_controller_label, temperature_control)
        ∷ (temperature_sensor_label, temperature_source)
        ∷ (pressure_sensor_label, pressure_source)
        ∷ (internal_flow_rate_controller_label, flow_control)
        ∷ [])
    ∷ []

pub wiring-AllResolved : AllResolved wiring wiring
unfolding find_role
wiring-AllResolved = ground arith

pub wiring-distinct : distinct wiring ≡ true
unfolding distinct fresh
wiring-distinct = refl

pub wiring-left : left_after 6 wiring ≡ []
unfolding left_after not_built all_built fresh
wiring-left = refl

module _ {lib : ConfigLibrary} where
  -- What a list of attempts gives if none of them throws.
  unfoldable pub Gives : List (Result (ConfigEntry lib)) → List Shape → Type 0
  Gives [] l = l ≡ []
  Gives (r ∷ k) [] = ⊥
  Gives (r ∷ k) (s ∷ l) = ((e : ConfigEntry lib) → r ≡ ok e → shape e ≡ s) × Gives k l

  pub in_order-Gives :
      (k : List (Result (ConfigEntry lib))) (l : List Shape) (es : List (ConfigEntry lib))
      → Gives k l
      → in_order k ≡ ok es
      → map shape es ≡ l
  unfolding Gives in_order
  in_order-Gives [] l es g h = let q : es ≡ [] = ground arith in rw q (sym g)
  in_order-Gives (r ∷ k) [] es g h = absurd g
  in_order-Gives (r ∷ k) (s ∷ l) es g h =
      let (e, h₁, re) = >>=-returns r _ es h in
      let (t, h₂, kt) = >>=-returns (in_order k) _ es h₁ in
      let q : es ≡ e ∷ t = ground arith in
      rw q (ground (arith, g.0 e re, in_order-Gives k l t g.1 kt))

pub component_configs-Gives :
    (lib : ConfigLibrary) (config : lib.Value) → Gives (component_configs lib config) wiring
unfolding Gives component_configs make_pressure_sensor_config make_temperature_sensor_config
    make_weight_sensor_config make_ac_sensor_config make_internal_flow_sensor_config
    make_button_config make_led_config make_pump_driver_config make_heater_driver_config
    make_valve_driver_config make_pump_power_controller_config make_heater_power_controller_config
    make_pressure_controller_config make_flow_rate_controller_config
    make_internal_flow_rate_controller_config make_brew_temperature_controller_config
    make_steam_preheat_temperature_controller_config make_steam_active_temperature_controller_config
    make_brew_profiler_config make_steam_controller_config
component_configs-Gives lib config = ground arith
