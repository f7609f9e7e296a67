-- ===== src/System/Safe.antt =====
-- From the configuration file to any state of the running daemon, and to its end.
use Prim.Native.String.{String}
use openpressod.Prelude.{true, false, ◌≡◌, inl, inr, Bool-cases, arith, if◌then◌else◌}
use openpressod.Core.{Core, Readings}
use openpressod.Results.{Result, ok}
use openpressod.Files.{File, Json}
use openpressod.Config.{ConfigLibrary}
use openpressod.ConfigMaker.Components.{DeviceConfig}
use openpressod.Machine
use openpressod.Machine.{get_brew_state, get_power_state, set_power_state}
use openpressod.Machine.Safety.{set_steam_temperature-IsSafe, IsSafe, sense-IsSafe}
use openpressod.Machine.Reach.{Exclusive, IsSafe-Exclusive}
use openpressod.Machine.Modes.{set_power_state_modes}
use openpressod.Dispatcher.{Dispatcher, destroy}
use openpressod.Dispatcher.Sync.{InSync, run-InSync}
use openpressod.Dispatcher.Kept.{run-Keeps, destroy-Keeps}
use openpressod.Machine.Kept.{IsSafe-IsKept}
use openpressod.Daemon.Start.{Hardware, Daemon, start}
use openpressod.Daemon.Started.{IsFresh, IsReady, start-IsReady}
use openpressod.System.{Step, Reach, runs, senses, moves, here, next}

-- The two invariants of the running daemon.
record IsSound {core : Core} (d : Dispatcher core) : Type 0 where
  safe : IsSafe d.state_manager
  in_sync : InSync d

module _ {core : Core} where
  pub moves-IsSafe :
      (p : core.Profiler) (d : Dispatcher core)
      → (core.is_brewing p ≡ true → core.is_brewing d.state_manager.brew_profiler ≡ true)
      → IsSafe d.state_manager
      → IsSafe (record d.state_manager { brew_profiler = p })
  moves-IsSafe p d h v = ground arith

  -- The destructor leaves a safe machine, with the power off.
  pub destroy-IsSafe :
      (r : Readings) (d : Dispatcher core)
      → IsSafe d.state_manager
      → IsSafe (destroy r d).state_manager × ((destroy r d).state_manager.power ≡ false)
  unfolding destroy get_power_state
  destroy-IsSafe r d v =
      let m = d.state_manager in
      let n = if get_brew_state m then Machine.stop_brew r m else m in
      let off = (set_power_state_modes false r n).0 in
      (
        destroy-Keeps IsSafe-IsKept r d v,
        elim (Bool-cases n.power) [ inl e ↦ rw e off | inr e ↦ rw e e ],
      )

module _ {core : Core} (json : Json) where
  Step-IsSound : {d n : Dispatcher core} → Step json d n → IsSound d → IsSound n
  Step-IsSound {d} (runs r p) v = record {
    safe = run-Keeps IsSafe-IsKept json r p d (λ u w e. set_steam_temperature-IsSafe) v.safe;
    in_sync = run-InSync json r p d v.in_sync;
  }
  Step-IsSound {d} (senses r) v = record {
    safe = sense-IsSafe r d.state_manager v.safe;
    in_sync = v.in_sync;
  }
  Step-IsSound {d} (moves p h) v = record { safe = moves-IsSafe p d h v.safe; in_sync = v.in_sync }

  Reach-IsSound : {d n : Dispatcher core} → Reach json d n → IsSound d → IsSound n
  Reach-IsSound here v = v
  Reach-IsSound (next r s) v = Step-IsSound s (Reach-IsSound r v)

  IsReady-IsSound : (d : Dispatcher core) → IsReady d → IsSound d
  IsReady-IsSound d v = record { safe = v.safe; in_sync = rw v.no_sinks tt }

  -- A daemon that has started, on components that are new, whatever its configuration and files, is
  -- off, does not brew, has no subscribers, and has set the two target temperatures of its current
  -- profile and settings. After any history of procedures, sensor readings and moves of the brew
  -- profiler, the two heaters are never on together, a brew runs only with the power on, steam mode
  -- off, the brew heater on and the brew timer running, nothing is on while the power is off, and
  -- every subscriber knows the power and the steam mode. The dispatcher's destructor then leaves the
  -- power, both heaters and the brew profiler off.
  pub start-Reach-safe :
      (lib : ConfigLibrary) (config : lib.Value) (files : String → File)
      (get_core : DeviceConfig lib → Result (Hardware core)) (r s : Readings) (daemon : Daemon core)
      (d : Dispatcher core)
      → ((c : DeviceConfig lib) (hw : Hardware core) → get_core c ≡ ok hw → IsFresh hw)
      → start lib config get_core json files r ≡ ok daemon
      → Reach json daemon.dispatcher d
      → IsReady daemon.dispatcher
        × Exclusive d.state_manager
        × InSync d
        × (let m = (destroy s d).state_manager in
            (m.power ≡ false)
            × (core.is_heating m.brew_temperature_controller ≡ false)
            × (core.is_heating m.steam_controller ≡ false)
            × (core.is_brewing m.brew_profiler ≡ false))
  start-Reach-safe lib config files get_core r s daemon d fresh started history =
      let ready = start-IsReady lib config json files get_core r daemon fresh started in
      let sound = Reach-IsSound history (IsReady-IsSound daemon.dispatcher ready) in
      let (safe, off) = destroy-IsSafe s d sound.safe in
      let rest = (IsSafe-Exclusive (destroy s d).state_manager safe).2 off in
      (
        ready,
        IsSafe-Exclusive d.state_manager sound.safe,
        sound.in_sync,
        (off, rest.0, rest.1, rest.2),
      )
