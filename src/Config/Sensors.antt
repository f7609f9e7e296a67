-- ===== src/Config/Sensors.antt =====
-- src/config/openpressod_config.cpp: the tables of the three sensors.
use Prim.Native.String.{String}
use openpressod.Prelude.{ℕ, ℤ, [], ◌∷◌}
use openpressod.Results.{Result}
use openpressod.Config.{ConfigLibrary, text, natural, milliseconds, required}
use openpressod.Config.Constants.{
  default_ads1115_addr, default_nau7802_addr, default_weight_d_filter_smoothing_period,
  default_temperature_d_filter_smoothing_period, default_temperature_sensor_spi,
}

module _ (lib : ConfigLibrary) (config : lib.Value) where
  open lib use {find_or}

  unfoldable pub pressure_sensor_signal_pin : Result ℕ
  pressure_sensor_signal_pin = required lib natural config ("pressure_sensor" ∷ "signal_pin" ∷ [])

  unfoldable pub pressure_sensor_i2c_addr : ℕ
  pressure_sensor_i2c_addr =
      find_or natural config ("pressure_sensor" ∷ "i2c_addr" ∷ []) default_ads1115_addr

  unfoldable pub weight_sensor_scale : Result ℕ
  weight_sensor_scale = required lib natural config ("weight_sensor" ∷ "scale" ∷ [])

  unfoldable pub weight_sensor_filter_timing : ℤ
  weight_sensor_filter_timing =
      find_or milliseconds config ("weight_sensor" ∷ "filter_timing" ∷ [])
        default_weight_d_filter_smoothing_period

  unfoldable pub weight_sensor_signal_pin : Result ℕ
  weight_sensor_signal_pin = required lib natural config ("weight_sensor" ∷ "signal_pin" ∷ [])

  unfoldable pub weight_sensor_i2c_addr : ℕ
  weight_sensor_i2c_addr =
      find_or natural config ("weight_sensor" ∷ "i2c_addr" ∷ []) default_nau7802_addr

  unfoldable pub temperature_sensor_filter_timing : ℤ
  temperature_sensor_filter_timing =
      find_or milliseconds config ("temperature_sensor" ∷ "filter_timing" ∷ [])
        default_temperature_d_filter_smoothing_period

  unfoldable pub temperature_sensor_spi_addr : String
  temperature_sensor_spi_addr =
      find_or text config ("temperature_sensor" ∷ "spi_addr" ∷ []) default_temperature_sensor_spi

  unfoldable pub temperature_sensor_signal_pin : Result ℕ
  temperature_sensor_signal_pin =
      required lib natural config ("temperature_sensor" ∷ "signal_pin" ∷ [])
