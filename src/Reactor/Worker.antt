-- ===== src/Reactor/Worker.antt =====
-- src/service/events_stream_reactor.cpp: the worker thread of one event stream, the two halves of
-- `pushEvent` on the dispatcher's thread, and gRPC's calls of the reactor, as interleaved steps.
pub mod Order
pub mod Wakeup
pub mod Race
pub mod Ends
pub mod Finishing
use openpressod.Prelude.{ℕ, ◌+◌, ◌-◌, ◌%◌, Bool, true, false, List, [], ◌∷◌, ◌++◌, length, ◌≡◌, ◌≢◌}
use openpressod.Messages.{Event}
use openpressod.Reactor.{
  EventsStreamReactor, WriteStatus, size_mod, make, enqueue_event, count_event, on_write_done,
  on_cancel,
}

-- Where the worker stands: before `wait(0)`; after the splice; before `StartWrite`; in the wait for
-- the write; after `Finish`.
pub data Stage : Type 0 where
  waiting spliced to_write writing finished : Stage

-- `queue` is the worker's own list. `pushing` holds while the one thread that pushes is between the
-- lock and `fetch_add`. `pushed` and `written` record what went in and what gRPC has confirmed;
-- `cancels` counts the calls of `OnCancel`.
pub record Stream : Type 0 where
  pub reactor : EventsStreamReactor
  pub queue : List Event
  pub stage : Stage
  pub pushing : Bool
  pub cancels : ℕ
  pub pushed : List Event
  pub written : List Event

unfoldable pub open_stream : ℕ → Stream
open_stream id = record {
  reactor = make id;
  queue = [];
  stage = waiting;
  pushing = false;
  cancels = 0;
  pushed = [];
  written = [];
}

unfoldable pub push : Event → Stream → Stream
push e s = record s {
  reactor = enqueue_event e s.reactor;
  pushing = true;
  pushed = s.pushed ++ e ∷ [];
}

unfoldable pub count : Stream → Stream
count s = record s { reactor = count_event s.reactor; pushing = false }

unfoldable pub cancel : Stream → Stream
cancel s = record s { reactor = on_cancel s.reactor; cancels = s.cancels + 1 }

-- The block under the worker's lock.
unfoldable pub splice : Stream → Stream
splice s = record s {
  reactor = record s.reactor { events_queue = [] };
  queue = s.reactor.events_queue;
  stage = spliced;
}

abbrev after_splice : List Event → Stage
after_splice [] = finished
after_splice (e ∷ l) = to_write

-- `fetch_sub` after the lock, and the test for an empty list.
unfoldable pub subtract : Stream → Stream
subtract s = record s {
  reactor = record s.reactor {
    queue_size = (s.reactor.queue_size + size_mod - length s.queue % size_mod) % size_mod;
  };
  stage = after_splice s.queue;
}

-- `m_writeStatus.store(InProgress)` and `StartWrite`.
unfoldable pub start_write : Stream → Stream
start_write s = record s {
  reactor = record s.reactor { write_status = WriteStatus.in_progress };
  stage = writing;
}

unfoldable pub write_done : Bool → Stream → Stream
write_done ok s = record s { reactor = on_write_done ok s.reactor }

abbrev after_pop : List Event → Stage
after_pop [] = waiting
after_pop (e ∷ l) = to_write

-- After the wait for the write: `break` if it failed, else `pop_front`.
unfoldable pub pop : Event → List Event → WriteStatus → Stream → Stream
pop e l WriteStatus.failed s = record s { stage = finished }
pop e l WriteStatus.idle s = record s {
  queue = l;
  written = s.written ++ e ∷ [];
  stage = after_pop l;
}
pop e l WriteStatus.in_progress s = s

pub data Step (s : Stream) : Stream → Type 0 where
  pushes : (e : Event) → s.pushing ≡ false → Step s (push e s)
  counts : s.pushing ≡ true → Step s (count s)
  cancelled : Step s (cancel s)
  wakes : s.stage ≡ waiting → s.reactor.queue_size ≢ 0 → Step s (splice s)
  subtracts : s.stage ≡ spliced → Step s (subtract s)
  writes : s.stage ≡ to_write → Step s (start_write s)
  confirms :
      (ok : Bool)
      → s.stage ≡ writing
      → s.reactor.write_status ≡ WriteStatus.in_progress
      → Step s (write_done ok s)
  pops :
      (e : Event) (l : List Event)
      → s.stage ≡ writing
      → s.queue ≡ e ∷ l
      → s.reactor.write_status ≢ WriteStatus.in_progress
      → Step s (pop e l s.reactor.write_status s)

pub data Reach (s : Stream) : Stream → Type 0 where
  here : Reach s s
  next : {t u : Stream} → Reach s t → Step t u → Reach s u
