-- ===== src/Status/Registered.antt =====
-- What the registered sensor callback shows: its mode and its target temperature.
use openpressod.Prelude.{
  ap, ℕ, ◌+◌, ℤ, Bool, Option, none, some, ◌≡◌, refl, arith, inl, inr, Option-cases,
}
use openpressod.Messages.{HeatingStatus, ready}
use openpressod.Core.{Core, Readings}
use openpressod.Leds.{LedsHandler}
use openpressod.Status.{
  StatusManager, TemperatureCallback, Pacing, fixed_rate, variable_rate, apply_status, disable,
  set_pacing, on_temperature, fixed_rate_call, variable_rate_call, temperature_call,
  indicate_brew_state, indicate_steam_state, indicate, make_status, set_callback, make,
}

-- The mode and the target of a registration.
abbrev pub shown : Option TemperatureCallback → Option (Bool × ℤ)
shown none = none
shown (some cb) = some (cb.steam_mode, cb.target)

module _ {core : Core} where
  pub disable-shown : (s : StatusManager core) → shown (disable s).temperature_callback ≡ none
  unfolding disable
  disable-shown s = ground arith

  pub indicate-shown :
      (t : ℤ) (r : Readings) (s : StatusManager core)
      → (shown (indicate_brew_state t r s).temperature_callback ≡ some (Bool.false, t))
        × (shown (indicate_steam_state t r s).temperature_callback ≡ some (Bool.true, t))
  unfolding indicate_brew_state indicate_steam_state indicate
  indicate-shown t r s = (refl, refl)

  apply_status-callback :
      (steam : Bool) (st : HeatingStatus) (s : StatusManager core)
      → (apply_status steam st s).temperature_callback ≡ s.temperature_callback
  unfolding apply_status
  apply_status-callback Bool.true st s = ground arith
  apply_status-callback Bool.false st s = ground arith

  apply_paced-shown :
      (cb : TemperatureCallback) (p : Pacing) (st : HeatingStatus) (s : StatusManager core)
      → shown (apply_status cb.steam_mode st (set_pacing cb p s)).temperature_callback
        ≡ some (cb.steam_mode, cb.target)
  unfolding set_pacing
  apply_paced-shown cb p st s = rw (apply_status-callback cb.steam_mode st (set_pacing cb p s)) refl

  fixed_rate_call-shown :
      (cb : TemperatureCallback) (n k : ℕ) (st : HeatingStatus) (s : StatusManager core)
      → s.temperature_callback ≡ some cb
      → shown (fixed_rate_call cb n k st s).temperature_callback ≡ some (cb.steam_mode, cb.target)
  unfolding fixed_rate_call set_pacing
  fixed_rate_call-shown cb n k ready s e =
      ground (arith, apply_paced-shown cb (fixed_rate n (k + 1)) ready s)
  fixed_rate_call-shown cb n k st s e = apply_paced-shown cb (fixed_rate n 0) st s

  variable_rate_call-shown :
      (cb : TemperatureCallback) (o : Option ℕ) (k : ℕ) (st : HeatingStatus)
      (s : StatusManager core)
      → s.temperature_callback ≡ some cb
      → shown (variable_rate_call cb o k st s).temperature_callback
        ≡ some (cb.steam_mode, cb.target)
  unfolding variable_rate_call set_pacing
  variable_rate_call-shown cb o k ready s e =
      ground (arith, apply_paced-shown cb (variable_rate none) ready s)
  variable_rate_call-shown cb o k st s e = apply_paced-shown cb (variable_rate none) st s

  temperature_call-shown :
      (cb : TemperatureCallback) (p : Pacing) (r : Readings) (s : StatusManager core)
      → s.temperature_callback ≡ some cb
      → shown (temperature_call cb p r s).temperature_callback ≡ some (cb.steam_mode, cb.target)
  unfolding temperature_call
  temperature_call-shown cb (fixed_rate n k) r s e =
      fixed_rate_call-shown cb n k (make_status r.temperature cb.target cb.window) s e
  temperature_call-shown cb (variable_rate o) r s e =
      variable_rate_call-shown cb o r.clock (make_status r.temperature cb.target cb.window) s e

  pub on_temperature-shown :
      (r : Readings) (s : StatusManager core)
      → shown (on_temperature r s).temperature_callback ≡ shown s.temperature_callback
  unfolding on_temperature
  on_temperature-shown r s = elim (Option-cases s.temperature_callback) [
    | inl e ↦ ground arith
    | inr (cb, e) ↦ ground (arith, temperature_call-shown cb cb.pacing r s e)
  ]

  pub set_callback-callback :
      (s : StatusManager core) → (set_callback s).temperature_callback ≡ s.temperature_callback
  unfolding set_callback
  set_callback-callback s = refl

  pub make-shown :
      (bw sw : ℤ) (period : ℕ) (leds : LedsHandler core)
      → shown (make bw sw period leds).temperature_callback ≡ none
  unfolding make
  make-shown bw sw period leds = refl

  -- Without a registration the sensor is not heard.
  pub on_temperature_unregistered :
      (r : Readings) (s : StatusManager core)
      → shown s.temperature_callback ≡ none
      → on_temperature r s ≡ s
  unfolding on_temperature
  on_temperature_unregistered r s h = elim (Option-cases s.temperature_callback) [
    | inl e ↦ ap (λ c. elim c [ none ↦ s | some cb ↦ temperature_call cb cb.pacing r s ]) e
    | inr (cb, e) ↦ absurd (ground (arith, e))
  ]
