-- ===== src/Reactor.antt =====
-- src/service/events_stream_reactor.hpp and events_stream_reactor.cpp: the queue of one subscriber.
-- Here are the parts that other threads call; the worker thread is in Reactor/Worker.
pub mod Worker
use openpressod.Prelude.{ℕ, ◌+◌, ◌%◌, ◌^◌, Bool, true, false, List, [], ◌∷◌, ◌++◌, if◌then◌else◌}
use openpressod.Messages.{Event}

pub data WriteStatus : Type 0 where
  idle in_progress failed : WriteStatus

-- `reactor_id` stands for the object's address, and `queue_size` is a `size_t`.
pub record EventsStreamReactor : Type 0 where
  pub reactor_id : ℕ
  pub write_status : WriteStatus
  pub queue_size : ℕ
  pub events_queue : List Event

abbrev pub size_mod : ℕ
size_mod = 2 ^ 64

-- The constructor.
unfoldable pub make : ℕ → EventsStreamReactor
make id = record {
  reactor_id = id;
  write_status = WriteStatus.idle;
  queue_size = 0;
  events_queue = [];
}

-- The part of `pushEvent` under the lock, and the part after it.
unfoldable pub enqueue_event : Event → EventsStreamReactor → EventsStreamReactor
enqueue_event e r = record r { events_queue = r.events_queue ++ e ∷ [] }

unfoldable pub count_event : EventsStreamReactor → EventsStreamReactor
count_event r = record r { queue_size = (r.queue_size + 1) % size_mod }

-- `pushEvent`, with nothing in between; also each overload of `notifyChanged`, whose message is the
-- argument of the event's constructor.
unfoldable pub notify_changed : Event → EventsStreamReactor → EventsStreamReactor
unfolding enqueue_event count_event
notify_changed e r = count_event (enqueue_event e r)

unfoldable pub on_write_done : Bool → EventsStreamReactor → EventsStreamReactor
on_write_done good r = record r {
  write_status = if good then WriteStatus.idle else WriteStatus.failed;
}

-- `OnCancel` adds one to the size with nothing in the queue.
unfoldable pub on_cancel : EventsStreamReactor → EventsStreamReactor
unfolding count_event
on_cancel r = count_event r
