-- ===== src/Config/Panel.antt =====
-- src/config/openpressod_config.cpp: the tables [buttons] and [leds].
use openpressod.Prelude.{ℕ, ℤ, Bool, none, some, [], ◌∷◌}
use openpressod.Results.{Result, ok, err, bad_optional_access}
use openpressod.Config.{ConfigLibrary, boolean, text, natural, milliseconds, required}
use openpressod.Config.Constants.{
  default_buttons_logic_inverted, default_power_button_bistable, default_brew_button_bistable,
  default_steam_button_bistable, default_buttons_pull_mode, default_button_debounce_period,
  default_leds_logic_inverted,
}

module _ (lib : ConfigLibrary) (config : lib.Value) where
  open lib use {find_or, PinPull, pull_up, pull_name, pull_cast}

  unfoldable pub buttons_logic_inverted : Bool
  buttons_logic_inverted =
      find_or boolean config ("buttons" ∷ "inverted" ∷ []) default_buttons_logic_inverted

  unfoldable pub power_button_bistable : Bool
  power_button_bistable =
      find_or boolean config ("buttons" ∷ "power_bistable" ∷ []) default_power_button_bistable

  unfoldable pub brew_button_bistable : Bool
  brew_button_bistable =
      find_or boolean config ("buttons" ∷ "brew_bistable" ∷ []) default_brew_button_bistable

  unfoldable pub steam_button_bistable : Bool
  steam_button_bistable =
      find_or boolean config ("buttons" ∷ "steam_bistable" ∷ []) default_steam_button_bistable

  unfoldable pub buttons_pull_mode : Result PinPull
  buttons_pull_mode =
      elim (pull_cast (
        find_or text config ("buttons" ∷ "pull_mode" ∷ [])
          (pull_name (default_buttons_pull_mode lib)))) [
            | none ↦ err bad_optional_access
            | some p ↦ ok p
          ]

  unfoldable pub buttons_debounce_period : ℤ
  buttons_debounce_period =
      find_or milliseconds config ("buttons" ∷ "debounce_period" ∷ [])
        default_button_debounce_period

  unfoldable pub power_button_signal_pin : Result ℕ
  power_button_signal_pin = required lib natural config ("buttons" ∷ "power_pin" ∷ [])

  unfoldable pub brew_button_signal_pin : Result ℕ
  brew_button_signal_pin = required lib natural config ("buttons" ∷ "brew_pin" ∷ [])

  unfoldable pub steam_button_signal_pin : Result ℕ
  steam_button_signal_pin = required lib natural config ("buttons" ∷ "steam_pin" ∷ [])

  unfoldable pub leds_logic_inverted : Bool
  leds_logic_inverted =
      find_or boolean config ("leds" ∷ "inverted" ∷ []) default_leds_logic_inverted

  unfoldable pub power_led_output_pin : Result ℕ
  power_led_output_pin = required lib natural config ("leds" ∷ "power_pin" ∷ [])

  unfoldable pub brew_led_output_pin : Result ℕ
  brew_led_output_pin = required lib natural config ("leds" ∷ "brew_pin" ∷ [])

  unfoldable pub steam_led_output_pin : Result ℕ
  steam_led_output_pin = required lib natural config ("leds" ∷ "steam_pin" ∷ [])
