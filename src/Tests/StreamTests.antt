-- ===== src/Tests/StreamTests.antt =====
-- The event stream and the executor.
use openpressod.Prelude.{
  none, ℕ, true, false, ◌≡◌, ◌≢◌, ◌↔◌, ◌+◌, ◌*◌, ◌<◌, ◌≤◌, ◌⊎◌, ◌++◌, refl, [], ◌∷◌, length, arith,
}
use openpressod.Messages.{power_state, brew_state}
use openpressod.Reactor
use openpressod.Reactor.{WriteStatus, size_mod}
use openpressod.Reactor.Worker.{
  Stream, open_stream, push, count, waiting, finished, Reach, here, next, pushes, counts, cancel,
  splice, cancelled, wakes,
}
use openpressod.Reactor.Worker.Ends.{Run, starts, steps}
use openpressod.Reactor.Worker.Finishing.{GoesOn, cancelled_ends}
use openpressod.Reactor.Worker.Order.{Reach-order}
use openpressod.Reactor.Worker.Wakeup.{wakeup_iff}
use openpressod.Reactor.Worker.Race.{push-splice_race}
use openpressod.Executor.{Executor, make, execute, stop, drain, work, work_on, take_when}
use openpressod.Executor.Serial.{run_in_order, waits_only_when_empty}
use openpressod.Executor.Serial
use openpressod.Executor.Shutdown.{stop-drains}

abbrev told : Stream
told = count (push (power_state true) (open_stream 7))

told-Reach : Reach (open_stream 7) told
unfolding push count open_stream
told-Reach = next (next here (pushes (power_state true) refl)) (counts refl)

told-waiting : told.stage ≡ waiting
unfolding push count open_stream
told-waiting = refl

told-pushing : told.pushing ≡ false
unfolding push count open_stream
told-pushing = refl

told-size : length told.reactor.events_queue + told.cancels < size_mod
unfolding push count open_stream length Reactor.enqueue_event Reactor.count_event Reactor.make
told-size = omega arith

Reach-order_example : told.written ++ told.queue ++ told.reactor.events_queue ≡ told.pushed
Reach-order_example = Reach-order 7 told told-Reach

wakeup_iff_example :
    (told.reactor.queue_size ≢ 0) ↔ (0 < length told.reactor.events_queue + told.cancels)
wakeup_iff_example = wakeup_iff 7 told told-Reach told-waiting told-pushing told-size

-- The client leaves, and the worker takes the event.
abbrev left : Stream
left = cancel told

left_facts :
    Reach (open_stream 7) left
    × (left.pushing ≡ false)
    × (0 < left.cancels)
    × (length left.reactor.events_queue + left.cancels < size_mod)
    × Run left 1 (splice left)
unfolding push count cancel splice open_stream length Reactor.enqueue_event Reactor.count_event
    Reactor.make Reactor.on_cancel
left_facts = (
  next told-Reach cancelled,
  refl,
  omega arith,
  omega arith,
  steps starts (wakes refl (λ h. ground arith)) refl refl,
)

cancelled_ends_example :
    (1 ≤ 5 * length left.reactor.events_queue + 3 * length left.queue + 3)
    × (((splice left).stage ≡ finished) ⊎ GoesOn (splice left))
cancelled_ends_example =
    cancelled_ends 7 1 left (splice left) left_facts.0 left_facts.1 left_facts.2 left_facts.3
      left_facts.4

push-splice_race_example :
    (s : Stream) × Reach (open_stream 7) s
    × (s.stage ≡ finished)
    × (s.cancels ≡ 0)
    × (s.reactor.write_status ≡ WriteStatus.idle)
    × (s.pushed ≡ power_state true ∷ brew_state true ∷ brew_state false ∷ [])
    × (s.written ≡ power_state true ∷ brew_state true ∷ [])
    × (s.reactor.events_queue ≡ brew_state false ∷ [])
push-splice_race_example =
    push-splice_race 7 (power_state true) (brew_state true) (brew_state false)

abbrev busy : Executor ℕ
busy = record {
  m_queue = 3 ∷ [];
  m_queue_size = 1;
  queue = [];
  ran = [];
  submitted = 3 ∷ [];
  stopping = false;
  exited = false;
}

busy-Reach : Serial.Reach make busy
unfolding make execute
busy-Reach = Serial.next Serial.here (Serial.submit 3 refl)

busy-size : length busy.m_queue + 1 < size_mod
unfolding length
busy-size = omega arith

run_in_order_example :
    (busy.ran ++ busy.queue ++ busy.m_queue ≡ busy.submitted)
    × (busy.exited ≡ true → (busy.stopping ≡ true) × (busy.ran ≡ busy.submitted))
run_in_order_example = run_in_order busy busy-Reach

stop-drains_example :
    let f = drain (length busy.queue + length busy.m_queue + 2) (stop busy) in
    (f.exited ≡ true) × (f.ran ≡ busy.submitted)
stop-drains_example = stop-drains busy busy-Reach refl busy-size

idle-size : length (make {P = ℕ}).m_queue + 1 < size_mod
unfolding length make
idle-size = omega arith

idle-exited : (make {P = ℕ}).exited ≡ false
unfolding make
idle-exited = refl

idle-blocked : work (make {P = ℕ}) ≡ none
unfolding work work_on take_when make
idle-blocked = refl

waits_only_when_empty_example :
    ((make {P = ℕ}).ran ≡ (make {P = ℕ}).submitted) × ((make {P = ℕ}).stopping ≡ false)
waits_only_when_empty_example =
    waits_only_when_empty (make {P = ℕ}) Serial.here idle-size idle-exited idle-blocked
