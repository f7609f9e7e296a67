-- ===== src/Tests/ThreadsTests.antt =====
-- The dispatcher with its executor: a subscriber comes, the power goes on, and the daemon ends.
use openpressod.Prelude.{
  zero, ◌+◌, ℕ, suc, pos, ◌<◌, true, false, [], ◌++◌, ◌≡◌, refl, arith, length,
}
use openpressod.Prelude.Int.{◌+ℤ◌}
use openpressod.Core.Sample.{core, heater, brewer}
use openpressod.Machine
use openpressod.Status
use openpressod.Status.{
  set_callback, publish_status, apply_status, disable, unregister_temperature_callback, make_status,
  indicate, indicate_brew_state,
}
use openpressod.Dispatcher.{
  run, do_set_power_state, broadcast, destroy, add_sink, Dispatcher, Procedure,
}
use openpressod.Executor.{work, work_on, take_when, take, size_mod, stop, make, execute}
use openpressod.Executor.Pending.{execute_all, pending}
use openpressod.System.Threads.{
  work_off, update, run_job, Running, procedure, shut_down, open_threads, enqueue, Reach, here,
  next, calls, ends,
}
use openpressod.System.Threads.Alone.{advance, advance_with, work_alone, work_alone-Reach}
use openpressod.Machine.{
  get_brew_state, get_power_state, set_power_state, switch_off, heat_brew, StateManager,
  heating_status, set_heating_status_change_callback,
}
use openpressod.Machine.Safety.{set_callback-IsSafe}
use openpressod.Machine.Reach.{Exclusive, make-IsSafe}
use openpressod.Reactor
use openpressod.Dispatcher.Sync.{InSync}
use openpressod.Dispatcher.View.{SeesHeater}
use openpressod.Daemon.Started.{IsReady}
use openpressod.Machine.Publishing.{set_callback-installed}
use openpressod.System.Threads.Known.{IsClosed, threads_known}
use openpressod.System.Threads.Closing.{Countable, destructors_return}
use openpressod.Tests.Fixtures.{hub, at, json, cold_status, leds}

abbrev ready_machine : StateManager core
ready_machine = Machine.make false brewer (heater (pos 93000)) (heater (pos 150000)) 0 cold_status

abbrev ready_hub : Dispatcher core
ready_hub = record hub {
  state_manager = set_heating_status_change_callback ready_machine;
  events_sinks = [];
}

ready_hub-IsReady : IsReady ready_hub
unfolding Machine.make set_heating_status_change_callback
ready_hub-IsReady = record {
  safe = set_callback-IsSafe ready_machine (
      make-IsSafe {core = core} false brewer (heater (pos 93000)) (heater (pos 150000)) 0 (pos 500)
        (pos 1000) 250 leds (record { not_brewing = refl; brew_off = refl; steam_off = refl })
        (record { power = refl; brew = refl; steam = refl }));
  off = refl;
  not_brewing = refl;
  installed = set_callback-installed ready_machine;
  no_sinks = refl;
  brew_target = refl;
  steam_target = refl;
}

-- Both calls wait; the worker runs them, and then the call of the status callback.
abbrev called : Running core
called = enqueue (procedure (Procedure.set_power_state true)) (
    enqueue (procedure (Procedure.add_events_stream_reactor (Reactor.make 9)))
      (open_threads ready_hub))

called-Reach : Reach json (open_threads ready_hub) called
unfolding open_threads enqueue make execute
called-Reach =
    next
      (next here (
        calls (Procedure.add_events_stream_reactor (Reactor.make 9)) refl refl
          (λ e. absurd (ground arith))))
      (calls (Procedure.set_power_state true) refl refl (λ e. absurd (ground arith)))

abbrev told : Running core
told = work_alone json (at 20000 0) 5 called

told-Reach : Reach json (open_threads ready_hub) told
told-Reach = work_alone-Reach json (at 20000 0) 5 (open_threads ready_hub) called called-Reach

threads_known_example :
    Exclusive told.dispatcher.state_manager
    × (told.executor.ran ++ pending told.executor ≡ told.executor.submitted)
    × (told.ended ≡ false → InSync told.dispatcher)
    × (pending told.executor ≡ []
        → SeesHeater (heating_status told.dispatcher.state_manager) told.dispatcher.events_sinks)
threads_known_example = threads_known json ready_hub told ready_hub-IsReady told-Reach

-- The daemon ends while the calls wait.
abbrev ended : Running core
ended = record (enqueue shut_down called) { ending = true }

waiting : ℕ → ℕ
waiting k = length (work_alone json (at 20000 0) k ended).executor.m_queue

few : (k m : ℕ) → waiting k ≡ m → m < 4 → waiting k + 1 < size_mod
few k m e h = omega arith

ended-Countable : Countable json (at 20000 0) 9 ended
unfolding length work_alone enqueue execute advance advance_with work work_on open_threads make
    take_when take work_off update run_job execute_all set_heating_status_change_callback
    set_callback Machine.make Status.make run do_set_power_state broadcast destroy get_brew_state
    get_power_state set_power_state switch_off heat_brew indicate_brew_state indicate apply_status
    publish_status disable unregister_temperature_callback make_status add_sink ◌+ℤ◌ waiting
ended-Countable zero h = few 0 3 refl (omega arith)
ended-Countable (suc zero) h = few 1 0 refl (omega arith)
ended-Countable (suc (suc zero)) h = few 2 0 refl (omega arith)
ended-Countable (suc (suc (suc zero))) h = few 3 1 refl (omega arith)
ended-Countable (suc (suc (suc (suc zero)))) h = few 4 2 refl (omega arith)
ended-Countable (suc (suc (suc (suc (suc zero))))) h = few 5 0 refl (omega arith)
ended-Countable (suc (suc (suc (suc (suc (suc zero)))))) h = few 6 0 refl (omega arith)
ended-Countable (suc (suc (suc (suc (suc (suc (suc zero))))))) h = few 7 0 refl (omega arith)
ended-Countable (suc (suc (suc (suc (suc (suc (suc (suc zero)))))))) h = few 8 0 refl (omega arith)
ended-Countable (suc (suc (suc (suc (suc (suc (suc (suc (suc k))))))))) h = absurd (omega arith)

ended-Reach : Reach json (open_threads ready_hub) ended
unfolding enqueue open_threads
ended-Reach = next called-Reach (ends refl)

destructors_return_example :
    let t = work_alone json (at 20000 0) 8 ended in
    let u = record t { executor = stop t.executor } in
    let n = length t.executor.queue + length t.executor.m_queue + 2 in
    let w = work_alone json (at 20000 0) n u in
    (t.ended ≡ true) × (w.executor.exited ≡ true) × IsClosed w
unfolding enqueue open_threads execute make length
destructors_return_example =
    destructors_return json (at 20000 0) ready_hub ended ready_hub-IsReady ended-Reach refl refl
      ended-Countable
