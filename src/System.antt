-- ===== src/System.antt =====
-- The daemon while it runs: procedures on the dispatcher's thread (of the service's calls, the
-- buttons, the brew profiler and the status manager), temperatures that the sensor reports, and a
-- brew profiler that may stop or be reconfigured by itself, but starts only when it is told to
-- (src/async_events_dispatcher/async_events_dispatcher.cpp, src/state_manager/status_manager.cpp).
pub mod Safe
pub mod Threads
use openpressod.Prelude.{◌≡◌, true}
use openpressod.Core.{Core, Readings}
use openpressod.Files.{Json}
use openpressod.Status.{on_temperature}
use openpressod.Dispatcher.{Dispatcher, Procedure, run}

pub data Step {core : Core} (json : Json) (d : Dispatcher core) : Dispatcher core → Type 0 where
  runs : (r : Readings) (p : Procedure) → Step json d (run json r p d).1
  senses :
      (r : Readings)
      → Step json d (record d {
        state_manager = record d.state_manager {
          status_manager = on_temperature r d.state_manager.status_manager;
        };
      })
  moves :
      (p : core.Profiler)
      → (core.is_brewing p ≡ true → core.is_brewing d.state_manager.brew_profiler ≡ true)
      → Step json d (record d { state_manager = record d.state_manager { brew_profiler = p } })

pub data Reach {core : Core} (json : Json) (d : Dispatcher core) : Dispatcher core → Type 0 where
  here : Reach json d d
  next : {n k : Dispatcher core} → Reach json d n → Step json n k → Reach json d k
