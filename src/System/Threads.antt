-- ===== src/System/Threads.antt =====
-- src/async_events_dispatcher/async_events_dispatcher.cpp and procedures_serial_executor.hpp together:
-- the dispatcher's methods put procedures on the executor's queue, from any thread, and the
-- executor's worker runs them; the status callback puts a procedure there for every change of the
-- heating status. One procedure, one report of a sensor and one move of the brew profiler are one
-- step each, with the calls of the status callback that they make.
pub mod Jobs
pub mod Told
pub mod OneJob
pub mod Alone
pub mod Known
pub mod Sound
pub mod Steps
pub mod Closing
use openpressod.Prelude.{Bool, true, false, some, List, [], ◌∷◌, map, ◌≡◌, ◌||◌}
use openpressod.Messages.{HeatingStatus}
use openpressod.Core.{Core, Readings}
use openpressod.Files.{Json}
use openpressod.Status.{on_temperature}
use openpressod.Status.Publishing.{told_since}
use openpressod.Dispatcher.{Dispatcher, Procedure, run, destroy}
use openpressod.Dispatcher.Heater.{is_notification}
use openpressod.Executor.{Executor, make, execute, stop, work}
use openpressod.Executor.Pending.{execute_all}

-- What the executor is given: the body of a method, or that of the dispatcher's destructor.
pub data Job : Type 0 where
  procedure : Procedure → Job
  shut_down : Job

-- `ending` is set when the destructor has been called, and `ended` when its procedure has been run.
pub record Running (core : Core) : Type 0 where
  pub executor : Executor Job
  pub dispatcher : Dispatcher core
  pub ending : Bool
  pub ended : Bool

abbrev pub is_shut_down : Job → Bool
is_shut_down (procedure p) = false
is_shut_down shut_down = true

-- The procedures of the callbacks that are still registered while the destructor runs, and of the
-- event streams that end.
abbrev pub is_quiet : Procedure → Bool
is_quiet (Procedure.notify_heating_status_change s) = true
is_quiet (Procedure.notify_brew_step_change n) = true
is_quiet Procedure.brew_stopped = true
is_quiet (Procedure.release_events_stream_reactor id) = true
is_quiet _ = false

abbrev pub notification : HeatingStatus → Job
notification s = procedure (Procedure.notify_heating_status_change s)

module _ {core : Core} where
  unfoldable pub open_threads : Dispatcher core → Running core
  open_threads d = record { executor = make; dispatcher = d; ending = false; ended = false }

  unfoldable pub run_job : Json → Readings → Job → Dispatcher core → Dispatcher core
  run_job json r (procedure p) d = (run json r p d).1
  run_job json r shut_down d = destroy r d

  -- The dispatcher changes, and the status callback hands over what it is told.
  unfoldable pub update : Dispatcher core → Running core → Running core
  update d s =
      let told =
        told_since s.dispatcher.state_manager.status_manager d.state_manager.status_manager in
      record s { executor = execute_all (map notification told) s.executor; dispatcher = d }

  -- `m_executor.executeDiscardResult` and `executeWithCallback` in the dispatcher's methods.
  unfoldable pub enqueue : Job → Running core → Running core
  enqueue j s = record s { executor = execute j s.executor }

  -- The worker has taken `j` from its list, which leaves `e`.
  unfoldable pub work_off : Json → Readings → Job → Executor Job → Running core → Running core
  unfolding update
  work_off json r j e s =
      let t = record s { executor = e; ended = s.ended || is_shut_down j } in
      update (run_job json r j s.dispatcher) t

-- The destructor waits for its procedure, and then the executor's destructor is called, which lets the
-- worker return. Nobody calls a method of the dispatcher once its destructor has been called.
pub data Step {core : Core} (json : Json) (s : Running core) : Running core → Type 0 where
  calls :
      (p : Procedure)
      → is_notification p ≡ false
      → s.executor.exited ≡ false
      → (s.ending ≡ true → is_quiet p ≡ true)
      → Step json s (enqueue (procedure p) s)
  ends : s.ending ≡ false → Step json s (record (enqueue shut_down s) { ending = true })
  stops :
      s.ended ≡ true
      → s.executor.stopping ≡ false
      → Step json s (record s { executor = stop s.executor })
  takes :
      (e : Executor Job)
      → s.executor.queue ≡ []
      → work s.executor ≡ some e
      → Step json s (record s { executor = e })
  runs :
      (r : Readings) (j : Job) (l : List Job) (e : Executor Job)
      → s.executor.queue ≡ j ∷ l
      → work s.executor ≡ some e
      → Step json s (work_off json r j e s)
  senses :
      (r : Readings)
      → Step json s (
          update
            (record s.dispatcher {
              state_manager = record s.dispatcher.state_manager {
                status_manager = on_temperature r s.dispatcher.state_manager.status_manager;
              };
            })
            s)
  moves :
      (p : core.Profiler)
      → (core.is_brewing p ≡ true → core.is_brewing s.dispatcher.state_manager.brew_profiler ≡ true)
      → Step json s (record s {
        dispatcher = record s.dispatcher {
          state_manager = record s.dispatcher.state_manager { brew_profiler = p };
        };
      })

pub data Reach {core : Core} (json : Json) (s : Running core) : Running core → Type 0 where
  here : Reach json s s
  next : {t u : Running core} → Reach json s t → Step json t u → Reach json s u
