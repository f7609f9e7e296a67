-- ===== src/System/Threads/Known.antt =====
-- What holds of the dispatcher with its executor after any history, and after its end.
use openpressod.Prelude.{true, false, [], ◌++◌, ◌≡◌, ap, sym, append_assoc, ◌∙◌}
use mathlib.Core.Path.{subst}
use openpressod.Messages.{disabled}
use openpressod.Core.{Core}
use openpressod.Files.{Json}
use openpressod.Status.{get_current_status}
use openpressod.Machine.{heating_status}
use openpressod.Machine.Reach.{Exclusive, IsSafe-Exclusive}
use openpressod.Dispatcher.Sync.{InSync}
use openpressod.Dispatcher.View.{SeesHeater}
use openpressod.Dispatcher.{Dispatcher}
use openpressod.Daemon.Started.{IsReady}
use openpressod.Executor.Pending.{pending}
use openpressod.Executor.Serial.{all_ran}
use openpressod.System.Threads.{Running, open_threads, Reach}
use openpressod.System.Threads.Jobs.{statuses, WillKnow}
use openpressod.System.Threads.Sound.{IsSound}
use openpressod.System.Threads.Steps.{Reach-IsSound, open_threads-IsSound}

module _ {core : Core} where
  -- Every job has been run, everything is off, and the subscribers know that the heater is.
  abbrev pub IsClosed : Running core → Type 0
  IsClosed s =
      let m = s.dispatcher.state_manager in
      (s.executor.ran ≡ s.executor.submitted)
      × (m.power ≡ false)
      × (core.is_heating m.brew_temperature_controller ≡ false)
      × (core.is_heating m.steam_controller ≡ false)
      × (core.is_brewing m.brew_profiler ≡ false)
      × SeesHeater disabled s.dispatcher.events_sinks

  nothing_waits :
      (s : Running core)
      → IsSound s
      → pending s.executor ≡ []
      → SeesHeater (heating_status s.dispatcher.state_manager) s.dispatcher.events_sinks
  unfolding heating_status get_current_status
  nothing_waits s v e =
      subst
        (λ l.
          WillKnow (statuses l) s.dispatcher.state_manager.status_manager.heating_status
            s.dispatcher.events_sinks)
        e v.told

  pub IsSound-IsClosed : (s : Running core) → IsSound s → s.executor.exited ≡ true → IsClosed s
  IsSound-IsClosed s v x =
      let m = s.dispatcher.state_manager in
      let (stopping, q, k) = v.serial.done x in
      let off = v.off (v.stopped stopping) in
      let (brew, steam, idle, light, status) = (IsSafe-Exclusive m v.safe).2 off in
      let empty = ap (λ l. l ++ s.executor.m_queue) q ∙ k in
      (
        all_ran s.executor v.serial q k,
        off,
        brew,
        steam,
        idle,
        subst (λ h. SeesHeater h s.dispatcher.events_sinks) status (nothing_waits s v empty),
      )

  -- For a dispatcher that is ready, as the daemon's constructor leaves it: whatever the threads do
  -- in whatever order, the two heaters are never on together, a brew runs only with the power on,
  -- steam mode off, the brew heater on and the brew timer running, and nothing is on while the
  -- power is off; the jobs are run in the order in which they were handed over; until the
  -- destructor's procedure has been run, every subscriber knows the power and the steam mode; and
  -- when no job waits, every subscriber knows the heating status that the machine has.
  pub threads_known :
      (json : Json) (d : Dispatcher core) (s : Running core)
      → IsReady d
      → Reach json (open_threads d) s
      → Exclusive s.dispatcher.state_manager
        × (s.executor.ran ++ pending s.executor ≡ s.executor.submitted)
        × (s.ended ≡ false → InSync s.dispatcher)
        × (pending s.executor ≡ []
            → SeesHeater (heating_status s.dispatcher.state_manager) s.dispatcher.events_sinks)
  threads_known json d s ready history =
      let v = Reach-IsSound history (open_threads-IsSound d ready) in
      (
        IsSafe-Exclusive s.dispatcher.state_manager v.safe,
        sym (append_assoc s.executor.ran s.executor.queue s.executor.m_queue) ∙ v.serial.order,
        v.in_sync,
        nothing_waits s v,
      )
