-- ===== src/Status/Hysteresis.antt =====
-- When a heater becomes ready: the callback for a sensor with a fixed update rate.
use openpressod.Prelude.{
  ℕ, ◌+◌, ◌-◌, ◌^◌, ◌*◌, ◌≤◌, ◌<◌, ◌≡◌, ◌≢◌, ◌⊎◌, ◌↔◌, ℤ, Bool, true, false, some, List, [], ◌∷◌,
  arith, if◌then◌else◌, refl, ltb,
}
use openpressod.Messages.{HeatingStatus, ready}
use openpressod.Core.{Core, Readings}
use openpressod.Status.Required.{required_invocations_pos, required_invocations_lem}
use openpressod.Status.{
  StatusManager, TemperatureCallback, fixed_rate, same, apply_status, on_temperature,
  fixed_rate_call, temperature_call, indicate, make_status, set_pacing, make_pacing,
  required_invocations, unregister_temperature_callback,
}

abbrev pub in_range : ℤ → ℤ → Readings → Bool
in_range target window r = same (make_status r.temperature target window) ready

-- How many of the latest readings were in range without a break, on top of `k` before them.
abbrev pub streak : ℤ → ℤ → ℕ → List Readings → ℕ
streak target window k [] = k
streak target window k (r ∷ rs) =
    streak target window (if in_range target window r then k + 1 else 0) rs

abbrev next_count : Bool → Bool → ℕ → ℕ
next_count is_in already count = if is_in then (if already then count else count + 1) else 0

module _ {core : Core} where
  pub run : List Readings → StatusManager core → StatusManager core
  run [] s = s
  run (r ∷ rs) s = run rs (on_temperature r s)

  -- The state of the manager `k` readings into a streak, with `n` required.
  record Tracks (target window : ℤ) (n k : ℕ) (s : StatusManager core) : Type 0 where
    callback : TemperatureCallback
    count : ℕ
    registered : s.temperature_callback ≡ some callback
    same_target : callback.target ≡ target
    same_window : callback.window ≡ window
    paced : callback.pacing ≡ fixed_rate n count
    agrees :
        ((s.heating_status_cached ≡ ready) × (n ≤ k))
        ⊎ ((s.heating_status_cached ≢ ready) × (count ≡ k) × (k < n))

  apply_status-cached :
      (steam : Bool) (st : HeatingStatus) (s : StatusManager core)
      → ((apply_status steam st s).heating_status_cached ≡ st)
        × ((apply_status steam st s).temperature_callback ≡ s.temperature_callback)
        × ((apply_status steam st s).ready_hysteresis_period ≡ s.ready_hysteresis_period)
  unfolding apply_status
  apply_status-cached true st s = ground arith
  apply_status-cached false st s = ground arith

  fixed_rate_call-result :
      (cb : TemperatureCallback) (n count : ℕ) (st : HeatingStatus) (s : StatusManager core)
      → s.temperature_callback ≡ some cb
      → cb.pacing ≡ fixed_rate n count
      → let u = fixed_rate_call cb n count st s in
        (u.temperature_callback
          ≡ some (record cb {
            pacing =
                fixed_rate n
                  (next_count (same st ready) (same s.heating_status_cached ready) count);
          }))
        × (u.heating_status_cached ≡ (
            if same st ready
            then (if same s.heating_status_cached ready
                then ready
                else if ltb (count + 1) n
                then s.heating_status_cached
                else ready)
            else st))
  unfolding fixed_rate_call set_pacing
  fixed_rate_call-result cb n count ready s e p =
      ground (
        arith,
        apply_status-cached cb.steam_mode ready (set_pacing cb (fixed_rate n (count + 1)) s),
      )
  fixed_rate_call-result cb n count st s e p =
      ground (arith, apply_status-cached cb.steam_mode st (set_pacing cb (fixed_rate n 0) s))

  on_temperature-registered :
      (r : Readings) (cb : TemperatureCallback) (n count : ℕ) (s : StatusManager core)
      → s.temperature_callback ≡ some cb
      → cb.pacing ≡ fixed_rate n count
      → on_temperature r s
        ≡ fixed_rate_call cb n count (make_status r.temperature cb.target cb.window) s
  unfolding on_temperature temperature_call
  on_temperature-registered r cb n count s e p = ground arith

  on_temperature-result :
      (r : Readings) (target window : ℤ) (n k : ℕ) (s : StatusManager core)
      → (v : Tracks target window n k s)
      → let u = on_temperature r s in
        let is_in = in_range target window r in
        (u.temperature_callback
          ≡ some (record (v.callback) {
            pacing = fixed_rate n (next_count is_in (same s.heating_status_cached ready) v.count);
          }))
        × (u.heating_status_cached ≡ (
            if is_in
            then (if same s.heating_status_cached ready
                then ready
                else if ltb (v.count + 1) n
                then s.heating_status_cached
                else ready)
            else make_status r.temperature target window))
  on_temperature-result r target window n k s v =
      let st : HeatingStatus = make_status r.temperature v.callback.target v.callback.window in
      rw (on_temperature-registered r v.callback n v.count s v.registered v.paced) (
        rw (← v.same_target, ← v.same_window)
          (fixed_rate_call-result v.callback n v.count st s v.registered v.paced))

  on_temperature-Tracks :
      (r : Readings) (target window : ℤ) (n k : ℕ) (s : StatusManager core)
      → 1 ≤ n
      → Tracks target window n k s
      → Tracks target window n (if in_range target window r then k + 1 else 0) (on_temperature r s)
  on_temperature-Tracks r target window n k s one v =
      let result = on_temperature-result r target window n k s v in
      record {
        callback = record (v.callback) {
          pacing =
              fixed_rate n (
                next_count (in_range target window r) (same s.heating_status_cached ready) v.count);
        };
        count = next_count (in_range target window r) (same s.heating_status_cached ready) v.count;
        registered = result.0;
        same_target = v.same_target;
        same_window = v.same_window;
        paced = refl;
        agrees = ground arith;
      }

  run-Tracks :
      (rs : List Readings) (target window : ℤ) (n k : ℕ) (s : StatusManager core)
      → 1 ≤ n
      → Tracks target window n k s
      → Tracks target window n (streak target window k rs) (run rs s)
  unfolding run
  run-Tracks [] target window n k s one v = v
  run-Tracks (r ∷ rs) target window n k s one v =
      run-Tracks rs target window n (if in_range target window r then k + 1 else 0)
        (on_temperature r s) one (on_temperature-Tracks r target window n k s one v)

  indicate-Tracks :
      (steam : Bool) (target window : ℤ) (r : Readings) (rate : ℕ) (s : StatusManager core)
      → 0 < rate
      → r.update_rate ≡ some rate
      → let n = required_invocations s.ready_hysteresis_period rate in
        Tracks target window n
          (if in_range target window r then n else 0)
          (indicate steam target window r s)
  unfolding indicate make_pacing unregister_temperature_callback
  indicate-Tracks steam target window r rate s h e =
      let n = required_invocations s.ready_hysteresis_period rate in
      let applied =
        apply_status-cached steam (make_status r.temperature target window)
          (unregister_temperature_callback s) in
      record {
        callback = record {
          steam_mode = steam;
          target = target;
          window = window;
          pacing = fixed_rate n 0;
        };
        count = 0;
        registered = ground arith;
        same_target = refl;
        same_window = refl;
        paced = refl;
        agrees = ground (arith, required_invocations_pos s.ready_hysteresis_period rate);
      }

  -- With a sensor that has a fixed update rate above 0 and below 2^63 milliseconds, and a hysteresis
  -- period under 2^21 milliseconds (almost 35 minutes), after `indicateBrewState` (or
  -- `indicateSteamState`) and any sequence of temperatures, the heater status is Ready if and only if
  -- at least `n` of the latest readings were in range without a break, or all of them were and the
  -- first reading at `indicate` was in range too: that one counts as `n`. The required number `n` is
  -- at least 1, `n` readings at the rate span the hysteresis period, and `n - 1` do not exceed it,
  -- whatever `float` does to the quotient.
  pub indicate-run-ready :
      (steam : Bool) (target window : ℤ) (r : Readings) (rate : ℕ) (rs : List Readings)
      (s : StatusManager core)
      → 0 < rate
      → rate < 2 ^ 63
      → s.ready_hysteresis_period < 2 ^ 21
      → r.update_rate ≡ some rate
      → let n = required_invocations s.ready_hysteresis_period rate in
        (((run rs (indicate steam target window r s)).heating_status_cached ≡ ready)
          ↔ (n ≤ streak target window (if in_range target window r then n else 0) rs))
        × (1 ≤ n)
        × (s.ready_hysteresis_period ≤ n * rate)
        × ((n - 1) * rate ≤ s.ready_hysteresis_period)
  indicate-run-ready steam target window r rate rs s h bound small e =
      let n = required_invocations s.ready_hysteresis_period rate in
      let required = required_invocations_lem s.ready_hysteresis_period rate small h bound in
      let v =
        run-Tracks rs target window n (if in_range target window r then n else 0)
          (indicate steam target window r s)
          (required_invocations_pos s.ready_hysteresis_period rate)
          (indicate-Tracks steam target window r rate s h e) in
      ((ground arith, ground arith), required.0, required.1, required.2)
