-- ===== src/Tests/MachineTests.antt =====
-- The state manager.
use openpressod.Prelude.{
  ◌-◌, pos, true, false, not, ◌&&◌, ◌||◌, ◌≡◌, ◌≢◌, refl, arith, [], if◌then◌else◌,
}
use openpressod.Messages.{disabled, never}
use openpressod.Core.Sample.{core, heater, brewer}
use openpressod.Results.{ok, err, done, steam_while_brewing, brew_in_steam_mode, brew_while_off}
use openpressod.Timer.{elapsed_time}
use openpressod.Machine.{
  StateManager, make, set_power_state, start_brew, stop_brew, set_steam_mode_state, reset_scales,
  set_brew_steps, set_auto_stop_condition, same_bool,
}
use openpressod.Machine.Safety.{IsSafe, set_power_state-IsSafe}
use openpressod.Machine.Reach.{here, next, power, start, AtRest, Exclusive, make-IsSafe, Reach-safe}
use openpressod.Machine.Behaviour.{
  Unchanged, thrown-Unchanged, start_brew_cases, start-stop-elapsed_time, set_power_state-off,
  set_steam_mode_state_cases,
}
use openpressod.Machine.Modes.{set_power_state_modes}
use openpressod.Status.Consistent.{Dark}
use openpressod.Tests.Fixtures.{cold, leds, at}

at_rest : AtRest core brewer (heater (pos 95000)) (heater (pos 155000))
at_rest = record { not_brewing = refl; brew_off = refl; steam_off = refl }

dark : Dark {core = core} leds
dark = record { power = refl; brew = refl; steam = refl }

abbrev warm : StateManager core
warm = record cold {
  power = true;
  brew_temperature_controller = record { heating = true; target = pos 95000 };
}

abbrev pub brewing : StateManager core
brewing = record warm { brew_profiler = record brewer { brewing = true } }

cold-IsSafe : IsSafe cold
cold-IsSafe =
    make-IsSafe {core = core} false brewer (heater (pos 95000)) (heater (pos 155000)) 0 (pos 500)
      (pos 1000) 250 leds at_rest dark

on-IsSafe : IsSafe (set_power_state true (at 20000 0) cold)
on-IsSafe = set_power_state-IsSafe true (at 20000 0) cold cold-IsSafe

on-power : (set_power_state true (at 20000 0) cold).power ≡ true
on-power = (set_power_state_modes true (at 20000 0) cold).0

Reach-safe_example :
    Exclusive (start_brew (at 95000 9000) (set_power_state true (at 20000 0) cold)).1
Reach-safe_example =
    Reach-safe {core = core} false brewer (heater (pos 95000)) (heater (pos 155000)) 0 (pos 500)
      (pos 1000) 250 leds (start_brew (at 95000 9000) (set_power_state true (at 20000 0) cold)).1
      at_rest dark (next (next here (power true (at 20000 0))) (start (at 95000 9000)))

thrown-Unchanged_example :
    Unchanged brewing (start_brew (at 95000 0) brewing)
    × Unchanged brewing (set_steam_mode_state true (at 95000 0) brewing)
    × Unchanged brewing (reset_scales brewing)
    × Unchanged brewing (set_brew_steps (ok []) brewing)
    × Unchanged brewing (set_auto_stop_condition never brewing)
thrown-Unchanged_example = thrown-Unchanged (at 95000 0) true (ok []) never brewing

start_brew_cases_example :
    let (result, n) = start_brew (at 95000 9000) warm in
    let may_brew = core.is_brewing warm.brew_profiler || warm.power && not warm.steam in
    (result ≡ (
      if may_brew then done else err (if warm.power then brew_in_steam_mode else brew_while_off)))
    × (core.is_brewing n.brew_profiler ≡ may_brew)
    × (result ≢ done → n ≡ warm)
start_brew_cases_example = start_brew_cases (at 95000 9000) warm

start-stop-elapsed_time_example :
    let n = stop_brew (at 95000 37000) (start_brew (at 95000 9000) warm).1 in
    (core.is_brewing n.brew_profiler ≡ false) × (elapsed_time 99000 n.brew_timer ≡ 37000 - 9000)
unfolding make
start-stop-elapsed_time_example =
    start-stop-elapsed_time (at 95000 9000) (at 95000 37000) 0 99000 warm refl refl refl
      (omega arith) (omega arith) (omega arith)

set_power_state-off_example :
    let n = set_power_state false (at 93000 5000) (set_power_state true (at 20000 0) cold) in
    (n.power ≡ false)
    × (n.steam ≡ (set_power_state true (at 20000 0) cold).steam)
    × (core.is_brewing n.brew_profiler ≡ false)
    × (core.is_heating n.brew_temperature_controller ≡ false)
    × (core.is_heating n.steam_controller ≡ false)
    × (elapsed_time 6000 n.brew_timer ≡ 0)
    × (core.level n.status_manager.leds.power ≡ false)
    × (core.level n.status_manager.leds.brew ≡ false)
    × (core.level n.status_manager.leds.steam ≡ false)
    × (n.status_manager.heating_status ≡ disabled)
    × (set_power_state false (at 90000 7000) n ≡ n)
set_power_state-off_example =
    set_power_state-off (at 93000 5000) (at 90000 7000) 6000
      (set_power_state true (at 20000 0) cold) on-IsSafe on-power

set_steam_mode_state_cases_example :
    let m = set_power_state true (at 20000 0) cold in
    let (result, n) = set_steam_mode_state true (at 93000 5000) m in
    let blocked = core.is_brewing m.brew_profiler && not (same_bool m.steam true) in
    (result ≡ (if blocked then err steam_while_brewing else done))
    × (n.steam ≡ (if blocked then m.steam else true))
    × (n.power ≡ m.power)
    × (core.is_brewing n.brew_profiler ≡ core.is_brewing m.brew_profiler)
    × (core.is_heating n.steam_controller ≡ (m.power && n.steam))
    × (core.is_heating n.brew_temperature_controller ≡ (m.power && not n.steam))
set_steam_mode_state_cases_example =
    set_steam_mode_state_cases true (at 93000 5000) (set_power_state true (at 20000 0) cold)
      on-IsSafe
