-- ===== src/Tests/StatusTests.antt =====
-- The status manager.
use openpressod.Prelude.{pos, false, ◌*◌, ◌-◌, [], ◌∷◌, ◌≡◌, ◌↔◌, ◌≤◌, refl, arith, if◌then◌else◌}
use openpressod.Messages.{ready}
use openpressod.Prelude.Floats.{to_float, divide, times, ceil, round, nearest}
use openpressod.Status.{
  disable, indicate, indicate_brew_state, indicate_steam_state, on_temperature,
  required_invocations,
}
use openpressod.Status.Consistent.{IsConsistent, make-IsConsistent, step-IsConsistent}
use openpressod.Status.Hysteresis.{run, streak, in_range, indicate-run-ready}
use openpressod.Tests.Fixtures.{cold_status, leds, at}

cold_status-IsConsistent : IsConsistent cold_status
cold_status-IsConsistent =
    make-IsConsistent (pos 500) (pos 1000) 250 leds
      (record { power = refl; brew = refl; steam = refl })

step-IsConsistent_example :
    IsConsistent (disable cold_status)
    × IsConsistent (indicate_brew_state (pos 95000) (at 20000 0) cold_status)
    × IsConsistent (indicate_steam_state (pos 95000) (at 20000 0) cold_status)
    × IsConsistent (on_temperature (at 20000 0) cold_status)
step-IsConsistent_example =
    step-IsConsistent (at 20000 0) (pos 95000) cold_status cold_status-IsConsistent

indicate-run-ready_example :
    let n = required_invocations cold_status.ready_hysteresis_period 100 in
    let readings = at 94600 100 ∷ at 95100 200 ∷ at 95200 300 ∷ [] in
    (((run readings
          (indicate false (pos 95000) (pos 500) (at 20000 0) cold_status)).heating_status_cached
        ≡ ready)
      ↔ (n
          ≤ streak
              (pos 95000)
              (pos 500)
              (if in_range (pos 95000) (pos 500) (at 20000 0) then n else 0)
              readings))
    × (1 ≤ n)
    × (cold_status.ready_hysteresis_period ≤ n * 100)
    × ((n - 1) * 100 ≤ cold_status.ready_hysteresis_period)
unfolding openpressod.Status.make
indicate-run-ready_example =
    indicate-run-ready false (pos 95000) (pos 500) (at 20000 0) 100
      (at 94600 100 ∷ at 95100 200 ∷ at 95200 300 ∷ []) cold_status (omega arith) (omega arith)
      (omega arith) refl

-- In exact numbers 81 readings span 8100 milliseconds; their quotient in `float` is just above 81.
required_invocations_values :
    (required_invocations 8100 100 ≡ 82)
    × (required_invocations 9000 100 ≡ 90)
    × (required_invocations 250 100 ≡ 3)
    × (required_invocations 0 100 ≡ 1)
unfolding required_invocations to_float divide times ceil round nearest
required_invocations_values = (refl, refl, refl, refl)
