-- ===== src/Reactor/Worker/Wakeup.antt =====
-- What the size of a stream's queue says while the worker waits on it.
use openpressod.Prelude.{
  ℕ, ◌+◌, ◌%◌, ◌<◌, Bool, true, false, List, length, length-snoc, ◌≡◌, ◌≢◌, ◌↔◌, refl, arith,
}
use openpressod.Messages.{Event}
use openpressod.Reactor.{
  WriteStatus, size_mod, make, enqueue_event, count_event, on_write_done, on_cancel,
}
use openpressod.Reactor.Worker.{
  Stage, waiting, spliced, writing, Stream, open_stream, push, count, cancel, splice, subtract,
  start_write, write_done, pop, Step, Reach, pushes, counts, cancelled, wakes, subtracts, writes,
  confirms, pops, here, next,
}

abbrev pub bit : Bool → ℕ
bit true = 1
bit false = 0

-- What the worker has taken out and not subtracted.
abbrev pub taken : Stage → List Event → ℕ
taken spliced l = length l
taken _ l = 0

pub record Counts (s : Stream) : Type 0 where
  pub size :
      (s.reactor.queue_size + bit s.pushing) % size_mod
      ≡ (length s.reactor.events_queue + taken s.stage s.queue + s.cancels) % size_mod
  pub bound : s.reactor.queue_size < size_mod

pub open_stream-Counts : (id : ℕ) → Counts (open_stream id)
unfolding open_stream make length
open_stream-Counts id = record { size = refl; bound = omega arith }

push-Counts : (e : Event) (s : Stream) → s.pushing ≡ false → Counts s → Counts (push e s)
unfolding push enqueue_event
push-Counts e s h v = record {
  size = ground (arith, v.size, v.bound, length-snoc s.reactor.events_queue e);
  bound = v.bound;
}

count-Counts : (s : Stream) → s.pushing ≡ true → Counts s → Counts (count s)
unfolding count count_event
count-Counts s h v = record { size = ground (arith, v.size, v.bound); bound = omega arith }

cancel-Counts : (s : Stream) → Counts s → Counts (cancel s)
unfolding cancel on_cancel count_event
cancel-Counts s v = record { size = ground (arith, v.size, v.bound); bound = omega arith }

splice-Counts : (s : Stream) → s.stage ≡ waiting → Counts s → Counts (splice s)
unfolding splice length
splice-Counts s h v = record { size = ground (arith, v.size, v.bound); bound = v.bound }

subtract-Counts : (s : Stream) → s.stage ≡ spliced → Counts s → Counts (subtract s)
unfolding subtract
subtract-Counts s h v = record { size = ground (arith, v.size, v.bound); bound = omega arith }

pop-Counts :
    (e : Event) (l : List Event) (w : WriteStatus) (s : Stream)
    → s.stage ≡ writing
    → Counts s
    → Counts (pop e l w s)
unfolding pop
pop-Counts e l w s h v = record { size = ground (arith, v.size); bound = ground (arith, v.bound) }

Step-Counts : {s t : Stream} → Step s t → Counts s → Counts t
unfolding start_write write_done on_write_done
Step-Counts {s} (pushes e h) v = push-Counts e s h v
Step-Counts {s} (counts h) v = count-Counts s h v
Step-Counts {s} cancelled v = cancel-Counts s v
Step-Counts {s} (wakes h n) v = splice-Counts s h v
Step-Counts {s} (subtracts h) v = subtract-Counts s h v
Step-Counts {s} (writes h) v = record { size = ground (arith, v.size); bound = v.bound }
Step-Counts {s} (confirms ok h w) v = record { size = v.size; bound = v.bound }
Step-Counts {s} (pops e l h q w) v = pop-Counts e l s.reactor.write_status s h v

pub Reach-Counts : {s t : Stream} → Reach s t → Counts s → Counts t
Reach-Counts here v = v
Reach-Counts (next r s) v = Step-Counts s (Reach-Counts r v)

-- While no push is half done, and the queued events and cancellations can be counted in 64 bits, a
-- waiting worker is let through exactly if an event is queued or `OnCancel` has been called: no
-- wakeup is missed and none is spurious.
pub wakeup_iff :
    (id : ℕ) (s : Stream)
    → Reach (open_stream id) s
    → s.stage ≡ waiting
    → s.pushing ≡ false
    → length s.reactor.events_queue + s.cancels < size_mod
    → (s.reactor.queue_size ≢ 0) ↔ (0 < length s.reactor.events_queue + s.cancels)
wakeup_iff id s r w p b =
    let v = Reach-Counts r (open_stream-Counts id) in
    (λ h. ground (arith, v.size, v.bound), λ h. ground (arith, v.size, v.bound))
