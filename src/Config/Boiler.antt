-- ===== src/Config/Boiler.antt =====
-- src/config/openpressod_config.cpp: the tables [pump], [valve], [heater], [brew] and [steam].
use openpressod.Prelude.{ℕ, ℤ, pos, negsuc, [], ◌∷◌}
use openpressod.Messages.{Float}
use openpressod.Results.{Result, ok, err, ◌>>=◌, negative_hysteresis_period}
use openpressod.Config.{ConfigLibrary, integer, natural, real, milliseconds, required}
use openpressod.Config.Sensors.{temperature_sensor_filter_timing}
use Prim.Native.String.{String}
use openpressod.Config.Constants.{
  default_heater_ready_hysteresis_period, default_brew_temperature, default_brew_pressure,
  default_brew_temperature_window, default_steam_pressure_threshold, default_steam_temperature,
  default_steam_refill_flow, default_steam_temperature_window,
}

-- libopenpresso::PidSettings; a coefficient is a `float`, and the pattern of 0 is 0.
pub record PidSettings : Type 0 where
  pub p : Float
  pub d : Float
  pub d_term_relax : Float
  pub d_filter_time : ℤ
  pub i : Float
  pub i_term_relax : Float
  pub f : Float
  pub w : Float
  pub w_decay : Float

abbrev pub not_negative : ℤ → Result ℕ
not_negative (pos n) = ok n
not_negative (negsuc n) = err negative_hysteresis_period

module _ (lib : ConfigLibrary) (config : lib.Value) where
  open lib use {find_or}

  unfoldable pub flow_controller_multiplier : Result Float
  flow_controller_multiplier = required lib real config ("pump" ∷ "flow_controller_multiplier" ∷ [])

  unfoldable pub pump_output_pin : Result ℕ
  pump_output_pin = required lib natural config ("pump" ∷ "control_pin" ∷ [])

  unfoldable pub pump_volume_per_pulse : Result ℤ
  pump_volume_per_pulse = required lib integer config ("pump" ∷ "volume_per_pulse" ∷ [])

  unfoldable pub pump_stall_pressure : Result ℤ
  pump_stall_pressure = required lib integer config ("pump" ∷ "stall_pressure" ∷ [])

  unfoldable pub valve_output_pin : Result ℕ
  valve_output_pin = required lib natural config ("valve" ∷ "control_pin" ∷ [])

  unfoldable pub heater_output_pin : Result ℕ
  heater_output_pin = required lib natural config ("heater" ∷ "control_pin" ∷ [])

  -- In milliseconds.
  unfoldable pub heater_ready_hysteresis_period : Result ℕ
  heater_ready_hysteresis_period = not_negative (
      find_or milliseconds config ("heater" ∷ "ready_hysteresis_period" ∷ [])
        default_heater_ready_hysteresis_period)

  unfoldable pub brew_temperature : ℤ
  brew_temperature = find_or integer config ("brew" ∷ "temperature" ∷ []) default_brew_temperature

  unfoldable pub brew_pressure : ℤ
  brew_pressure = find_or integer config ("brew" ∷ "pressure" ∷ []) default_brew_pressure

  unfoldable pub brew_temperature_window : ℤ
  brew_temperature_window =
      find_or integer config ("brew" ∷ "brew_temperature_window" ∷ [])
        default_brew_temperature_window

  abbrev pub pid_coefficient : String → String → String → Result Float
  pid_coefficient table pid name = required lib real config (table ∷ pid ∷ name ∷ [])

  unfoldable pub brew_temperature_controller_pid_settings : Result PidSettings
  brew_temperature_controller_pid_settings = do
    p ← pid_coefficient "brew" "pid_settings" "p"
    d ← pid_coefficient "brew" "pid_settings" "d"
    d_relax ← pid_coefficient "brew" "pid_settings" "d_relax"
    i ← pid_coefficient "brew" "pid_settings" "i"
    i_relax ← pid_coefficient "brew" "pid_settings" "i_relax"
    f ← pid_coefficient "brew" "pid_settings" "f"
    w ← pid_coefficient "brew" "pid_settings" "w"
    w_decay ← pid_coefficient "brew" "pid_settings" "w_decay"
    ok (record {
      p = p;
      d = d;
      d_term_relax = d_relax;
      d_filter_time = temperature_sensor_filter_timing lib config;
      i = i;
      i_term_relax = i_relax;
      f = f;
      w = w;
      w_decay = w_decay;
    })

  -- What the two steam controllers share; `pid` is the name of the table.
  unfoldable pub steam_pid_settings : String → Result PidSettings
  steam_pid_settings pid = do
    p ← pid_coefficient "steam" pid "p"
    d ← pid_coefficient "steam" pid "d"
    d_relax ← pid_coefficient "steam" pid "d_relax"
    i ← pid_coefficient "steam" pid "i"
    i_relax ← pid_coefficient "steam" pid "i_relax"
    ok (record {
      p = p;
      d = d;
      d_term_relax = d_relax;
      d_filter_time = temperature_sensor_filter_timing lib config;
      i = i;
      i_term_relax = i_relax;
      f = 0;
      w = 0;
      w_decay = 0;
    })

  unfoldable pub steam_preheat_temperature_controller_pid_settings : Result PidSettings
  unfolding steam_pid_settings
  steam_preheat_temperature_controller_pid_settings = steam_pid_settings "preheat_pid_settings"

  unfoldable pub steam_active_temperature_controller_pid_settings : Result PidSettings
  unfolding steam_pid_settings
  steam_active_temperature_controller_pid_settings = steam_pid_settings "active_pid_settings"

  unfoldable pub steam_pressure_threshold : ℤ
  steam_pressure_threshold =
      find_or integer config ("steam" ∷ "pressure_threshold" ∷ []) default_steam_pressure_threshold

  unfoldable pub steam_temperature : ℤ
  steam_temperature =
      find_or integer config ("steam" ∷ "temperature" ∷ []) default_steam_temperature

  unfoldable pub steam_refill_flow : ℤ
  steam_refill_flow =
      find_or integer config ("steam" ∷ "refill_flow" ∷ []) default_steam_refill_flow

  unfoldable pub steam_temperature_window : ℤ
  steam_temperature_window =
      find_or integer config ("steam" ∷ "steam_temperature_window" ∷ [])
        default_steam_temperature_window
