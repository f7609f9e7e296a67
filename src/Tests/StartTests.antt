-- ===== src/Tests/StartTests.antt =====
-- The start of the daemon on a file with the required keys only, its use, and its process.
use Prim.Native.String.{String}
use openpressod.Prelude.{pos, true, false, [], ◌∷◌, ◌≡◌, ◌≢◌, ◌↔◌, refl, arith}
use mathlib.Core.Path.{subst}
use openpressod.Leds
use openpressod.Profiles
use openpressod.Profiles.{load_saved_profile, read_profile}
use openpressod.Core.Sample.{core, pin, heater, brewer}
use openpressod.Results.{err, Error, Result, ok}
use openpressod.Files.{File, unreadable}
use openpressod.ConfigMaker.Components.{DeviceConfig}
use openpressod.ConfigMaker
use openpressod.Config.Sample.{library, minimal}
use openpressod.Config.System.{log_level}
use openpressod.Config.Panel.{buttons_pull_mode}
use openpressod.Config.Boiler.{heater_ready_hysteresis_period}
use openpressod.ConfigMaker.Complete.{returns, all_present, required_keys}
use openpressod.Daemon.Start.{Daemon, Hardware, start, make_leds}
use openpressod.Daemon.Starts.{Returns, SavedProfileApplies, start-Returns_iff}
use openpressod.Daemon.Started.{IsFresh, IsReady, ok_injective}
use openpressod.Status.{on_temperature}
use openpressod.Machine.Reach.{Exclusive}
use openpressod.Dispatcher.{Dispatcher, Procedure, run, destroy}
use openpressod.Dispatcher.Sync.{InSync}
use openpressod.System
use openpressod.Main.{
  Signal, config_path, exited, waits, terminated, ex_ok, ex_software, main, start_from_file,
}
use openpressod.Main.Ends.{AllAccepted, main-ends}
use openpressod.System.Safe.{start-Reach-safe}
use openpressod.Tests.Fixtures.{json, at}

abbrev hardware : Hardware core
hardware = record {
  logical_output = λ l. pin;
  button_state = λ l. false;
  profiler = λ l. brewer;
  temperature_controller = λ l. heater (pos 90000);
  scale = λ l. 0;
}

abbrev pub get_core : DeviceConfig library → Result (Hardware core)
get_core c = ok hardware

abbrev pub files : String → File
files path = unreadable

hardware-idle :
    (c : DeviceConfig library) (hw : Hardware core)
    → get_core c ≡ ok hw
    → core.is_brewing (hw.profiler "brew_profiler") ≡ false
hardware-idle c hw h = ground arith

start-Returns_iff_example : Returns (start library minimal get_core json files (at 20000 0)) ↔ (
    (returns (log_level library minimal) ≡ true)
    × (all_present library minimal required_keys ≡ true)
    × (returns (buttons_pull_mode library minimal) ≡ true)
    × ((c : DeviceConfig library) → ConfigMaker.make library minimal ≡ ok c → Returns (get_core c))
    × (returns (heater_ready_hysteresis_period library minimal) ≡ true)
    × SavedProfileApplies core library minimal json files)
start-Returns_iff_example =
    start-Returns_iff core library minimal json files get_core (at 20000 0) hardware-idle

nothing_saved : SavedProfileApplies core library minimal json files
unfolding load_saved_profile read_profile Profiles.make
nothing_saved h = absurd (ground arith)

starts : Returns (start library minimal get_core json files (at 20000 0))
unfolding log_level buttons_pull_mode heater_ready_hysteresis_period
starts =
    start-Returns_iff_example.1 (refl, refl, refl, λ c e. (hardware, refl), refl, nothing_saved)

hardware-IsFresh : (c : DeviceConfig library) (hw : Hardware core) → get_core c ≡ ok hw → IsFresh hw
unfolding make_leds Leds.make
hardware-IsFresh c hw h =
    subst (λ x. IsFresh {core = core} x) (ok_injective h)
      (record {
        at_rest = record { not_brewing = refl; brew_off = refl; steam_off = refl };
        dark = record { power = refl; brew = refl; steam = refl };
      })

-- The power button is pressed, a brew is started, and the sensor reports a temperature.
abbrev used : Dispatcher core
used =
    let on = (run json (at 95000 0) (Procedure.set_power_state true) starts.0.dispatcher).1 in
    let brews = (run json (at 95000 100) Procedure.start_brew on).1 in
    record brews {
      state_manager = record brews.state_manager {
        status_manager = on_temperature (at 95000 200) brews.state_manager.status_manager;
      };
    }

history : System.Reach json starts.0.dispatcher used
history =
    System.next
      (System.next
        (System.next System.here (System.runs (at 95000 0) (Procedure.set_power_state true)))
        (System.runs (at 95000 100) Procedure.start_brew))
      (System.senses (at 95000 200))

start-Reach-safe_example :
    IsReady starts.0.dispatcher
    × Exclusive used.state_manager
    × InSync used
    × (let m = (destroy (at 95000 300) used).state_manager in
        (m.power ≡ false)
        × (m.brew_temperature_controller.heating ≡ false)
        × (m.steam_controller.heating ≡ false)
        × (m.brew_profiler.brewing ≡ false))
start-Reach-safe_example =
    start-Reach-safe json library minimal files get_core (at 20000 0) (at 95000 300) starts.0 used
      hardware-IsFresh starts.1 history

main-ends_example :
    let outcome =
      main library
        (λ p. ok minimal)
        get_core
        json
        files
        (at 20000 0)
        (config_path "openpressod.conf")
        (λ s. true)
        (Signal.terminate ∷ []) in
    let daemon =
      start_from_file library
        (λ p. ok minimal)
        get_core
        json
        files
        (at 20000 0)
        "openpressod.conf" in
    let starts = (d : Daemon core) × (daemon ≡ ok d) in
    ((outcome ≡ exited ex_ok) ↔ (AllAccepted (λ s. true) × starts × (Signal.terminate ∷ [] ≢ [])))
    × ((outcome ≡ exited ex_software)
        ↔ (AllAccepted (λ s. true) × ((e : Error) × (daemon ≡ err e))))
    × ((outcome ≡ waits) ↔ (AllAccepted (λ s. true) × starts × (Signal.terminate ∷ [] ≡ [])))
    × ((outcome ≡ terminated) ↔ ¬ AllAccepted (λ s. true))
main-ends_example =
    main-ends library (λ p. ok minimal) get_core json files (at 20000 0) "openpressod.conf"
      (λ s. true) (Signal.terminate ∷ [])
