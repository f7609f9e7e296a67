-- ===== src/Status/Consistent.antt =====
-- The status that is published, the one that is cached, the lights and the registration agree.
use openpressod.Prelude.{
  ℕ, ◌+◌, ℤ, inl, inr, Option-cases, Bool, true, false, not, ◌&&◌, Option, none, some, ◌≡◌, arith,
  refl,
}
use openpressod.Messages.{HeatingStatus, disabled, ready}
use openpressod.Core.{Core, Readings}
use openpressod.Leds.{
  LedsHandler, indicate_power_off, indicate_brew_preheat, indicate_brew_ready,
  indicate_brew_overheat, indicate_steam_preheat, indicate_steam_ready, indicate_steam_overheat,
}
use openpressod.Status.{
  StatusManager, TemperatureCallback, Pacing, fixed_rate, variable_rate, same, apply_status, make,
  disable, set_callback, on_temperature, indicate_brew_state, indicate_steam_state,
  unregister_temperature_callback, fixed_rate_call, variable_rate_call, temperature_call, indicate,
  make_status, set_pacing, since_or,
}

abbrev pub is_on : Option TemperatureCallback → Bool
is_on none = false
is_on (some cb) = true

abbrev pub in_brew_mode : Option TemperatureCallback → Bool
in_brew_mode none = false
in_brew_mode (some cb) = not cb.steam_mode

abbrev pub in_steam_mode : Option TemperatureCallback → Bool
in_steam_mode none = false
in_steam_mode (some cb) = cb.steam_mode

pub record IsConsistent {core : Core} (s : StatusManager core) : Type 0 where
  pub synced : s.heating_status ≡ s.heating_status_cached
  pub enabled : same s.heating_status_cached disabled ≡ not (is_on s.temperature_callback)
  pub power_led : core.level s.leds.power ≡ is_on s.temperature_callback
  pub brew_led :
      core.level s.leds.brew
      ≡ (in_brew_mode s.temperature_callback && same s.heating_status_cached ready)
  pub steam_led :
      core.level s.leds.steam
      ≡ (in_steam_mode s.temperature_callback && same s.heating_status_cached ready)

-- The lights are out.
pub record Dark {core : Core} (l : LedsHandler core) : Type 0 where
  pub power : core.level l.power ≡ false
  pub brew : core.level l.brew ≡ false
  pub steam : core.level l.steam ≡ false

-- The status of a heater that is on.
abbrev pub IsHeating : HeatingStatus → Type 0
IsHeating st = same st disabled ≡ false

make_status-IsHeating : (t target w : ℤ) → IsHeating (make_status t target w)
unfolding make_status
make_status-IsHeating t target w = ground arith

-- What `apply_status` leaves behind.
record Applied {core : Core} (steam : Bool) (st : HeatingStatus) (s t : StatusManager core)
    : Type 0 where
  cached : t.heating_status_cached ≡ st
  synced : s.heating_status ≡ s.heating_status_cached → t.heating_status ≡ st
  callback : t.temperature_callback ≡ s.temperature_callback
  power_led : core.level t.leds.power ≡ true
  brew_led : core.level t.leds.brew ≡ (not steam && same st ready)
  steam_led : core.level t.leds.steam ≡ (steam && same st ready)

module _ {core : Core} where
  open core use {level-set_state}

  apply_status-Applied :
      (steam : Bool) (st : HeatingStatus) (s : StatusManager core)
      → IsHeating st
      → Applied steam st s (apply_status steam st s)
  unfolding apply_status indicate_brew_preheat indicate_brew_ready indicate_brew_overheat
      indicate_steam_preheat indicate_steam_ready indicate_steam_overheat
  apply_status-Applied true st s h = grind (arith, level-set_state)
  apply_status-Applied false st s h = grind (arith, level-set_state)

  disable-IsConsistent : (s : StatusManager core) → IsConsistent s → IsConsistent (disable s)
  unfolding disable indicate_power_off
  disable-IsConsistent s v = grind (arith, level-set_state)

  -- What keeps the lights and the status but changes the callback's mutable variable only.
  set_pacing-IsConsistent :
      (cb : TemperatureCallback) (p : Pacing) (s : StatusManager core)
      → s.temperature_callback ≡ some cb
      → IsConsistent s
      → IsConsistent (set_pacing cb p s)
  unfolding set_pacing
  set_pacing-IsConsistent cb p s e v = ground arith

  apply_status-IsConsistent :
      (cb : TemperatureCallback) (st : HeatingStatus) (s : StatusManager core)
      → s.temperature_callback ≡ some cb
      → IsHeating st
      → IsConsistent s
      → IsConsistent (apply_status cb.steam_mode st s)
  apply_status-IsConsistent cb st s e h v =
      ground (arith, apply_status-Applied cb.steam_mode st s h)

  indicate-IsConsistent :
      (steam : Bool) (t w : ℤ) (r : Readings) (s : StatusManager core)
      → IsConsistent s
      → IsConsistent (indicate steam t w r s)
  unfolding indicate unregister_temperature_callback
  indicate-IsConsistent steam t w r s v =
      let st : HeatingStatus = make_status r.temperature t w in
      ground (
        arith,
        make_status-IsHeating r.temperature t w,
        apply_status-Applied steam (make_status r.temperature t w)
            (unregister_temperature_callback s),
      )

  apply_paced-IsConsistent :
      (cb : TemperatureCallback) (p : Pacing) (st : HeatingStatus) (s : StatusManager core)
      → s.temperature_callback ≡ some cb
      → IsHeating st
      → IsConsistent s
      → IsConsistent (apply_status cb.steam_mode st (set_pacing cb p s))
  unfolding set_pacing
  apply_paced-IsConsistent cb p st s e h v =
      apply_status-IsConsistent (record cb { pacing = p }) st (set_pacing cb p s) refl h
        (set_pacing-IsConsistent cb p s e v)

  fixed_rate_call-IsConsistent :
      (cb : TemperatureCallback) (n k : ℕ) (st : HeatingStatus) (s : StatusManager core)
      → s.temperature_callback ≡ some cb
      → IsHeating st
      → IsConsistent s
      → IsConsistent (fixed_rate_call cb n k st s)
  unfolding fixed_rate_call
  fixed_rate_call-IsConsistent cb n k ready s e h v = ground (
    arith,
    set_pacing-IsConsistent cb (fixed_rate n (k + 1)) s,
    apply_paced-IsConsistent cb (fixed_rate n (k + 1)) ready s,
  )
  fixed_rate_call-IsConsistent cb n k st s e h v =
      apply_paced-IsConsistent cb (fixed_rate n 0) st s e h v

  variable_rate_call-IsConsistent :
      (cb : TemperatureCallback) (o : Option ℕ) (k : ℕ) (st : HeatingStatus)
      (s : StatusManager core)
      → s.temperature_callback ≡ some cb
      → IsHeating st
      → IsConsistent s
      → IsConsistent (variable_rate_call cb o k st s)
  unfolding variable_rate_call
  variable_rate_call-IsConsistent cb o k ready s e h v = ground (
    arith,
    set_pacing-IsConsistent cb (variable_rate (some (since_or o k))) s,
    apply_paced-IsConsistent cb (variable_rate none) ready s,
  )
  variable_rate_call-IsConsistent cb o k st s e h v =
      apply_paced-IsConsistent cb (variable_rate none) st s e h v

  temperature_call-IsConsistent :
      (cb : TemperatureCallback) (p : Pacing) (r : Readings) (s : StatusManager core)
      → s.temperature_callback ≡ some cb
      → IsConsistent s
      → IsConsistent (temperature_call cb p r s)
  unfolding temperature_call
  temperature_call-IsConsistent cb (fixed_rate n k) r s e v =
      fixed_rate_call-IsConsistent cb n k (make_status r.temperature cb.target cb.window) s e
        (make_status-IsHeating r.temperature cb.target cb.window) v
  temperature_call-IsConsistent cb (variable_rate o) r s e v =
      variable_rate_call-IsConsistent cb o r.clock (make_status r.temperature cb.target cb.window) s
        e (make_status-IsHeating r.temperature cb.target cb.window) v

  on_temperature-IsConsistent :
      (r : Readings) (s : StatusManager core) → IsConsistent s → IsConsistent (on_temperature r s)
  unfolding on_temperature
  on_temperature-IsConsistent r s v = elim (Option-cases s.temperature_callback) [
    | inl e ↦ rw (e, on_temperature) v
    | inr (cb, e) ↦ rw (e, on_temperature) (temperature_call-IsConsistent cb cb.pacing r s e v)
  ]

  pub make-IsConsistent :
      (bw sw : ℤ) (period : ℕ) (leds : LedsHandler core)
      → Dark leds
      → IsConsistent (make bw sw period leds)
  unfolding make
  make-IsConsistent bw sw period leds d = ground arith

  pub set_callback-IsConsistent :
      (s : StatusManager core) → IsConsistent s → IsConsistent (set_callback s)
  unfolding set_callback
  set_callback-IsConsistent s v = ground arith

  -- Every operation of the status manager, in either mode and at any readings, keeps the published
  -- and the cached status equal, the status DISABLED exactly when no sensor callback is registered,
  -- the power light on exactly when one is, and the brew (steam) light on exactly when one of that
  -- mode is and the status is Ready.
  pub step-IsConsistent :
      (r : Readings) (target : ℤ) (s : StatusManager core)
      → IsConsistent s
      → IsConsistent (disable s)
        × IsConsistent (indicate_brew_state target r s)
        × IsConsistent (indicate_steam_state target r s)
        × IsConsistent (on_temperature r s)
  unfolding indicate_brew_state indicate_steam_state
  step-IsConsistent r target s v = (
    disable-IsConsistent s v,
    indicate-IsConsistent false target s.brew_temperature_window r s v,
    indicate-IsConsistent true target s.steam_temperature_window r s v,
    on_temperature-IsConsistent r s v,
  )
