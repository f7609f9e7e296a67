-- ===== src/Reactor/Worker/Order.antt =====
-- The events of a stream go out in order, each at most once.
use openpressod.Prelude.{
  ℕ, List, [], ◌∷◌, ◌++◌, ◌≡◌, refl, sym, ap, ◌∙◌, arith, append_assoc, append_nil,
}
use openpressod.Messages.{Event}
use openpressod.Reactor.{WriteStatus, make, enqueue_event, count_event, on_write_done, on_cancel}
use openpressod.Reactor.Worker.{
  waiting, writing, Stream, open_stream, push, count, cancel, splice, subtract, start_write,
  write_done, pop, Step, Reach, pushes, counts, cancelled, wakes, subtracts, writes, confirms, pops,
  here, next,
}

-- The worker's list is empty while the worker waits.
record InOrder (s : Stream) : Type 0 where
  order : s.written ++ s.queue ++ s.reactor.events_queue ≡ s.pushed
  empty : s.stage ≡ waiting → s.queue ≡ []

open_stream-InOrder : (id : ℕ) → InOrder (open_stream id)
unfolding open_stream make
open_stream-InOrder id = record { order = refl; empty = λ h. refl }

push-InOrder : (e : Event) (s : Stream) → InOrder s → InOrder (push e s)
unfolding push enqueue_event
push-InOrder e s v = record {
  order =
      sym (append_assoc (s.written ++ s.queue) s.reactor.events_queue (e ∷ []))
      ∙ ap (λ l. l ++ e ∷ []) v.order;
  empty = v.empty;
}

splice-InOrder : (s : Stream) → s.stage ≡ waiting → InOrder s → InOrder (splice s)
unfolding splice
splice-InOrder s w v = record {
  order =
      append_nil (s.written ++ s.reactor.events_queue)
      ∙ ap (λ l. l ++ s.reactor.events_queue)
          (sym (append_nil s.written) ∙ ap (λ k. s.written ++ k) (sym (v.empty w)))
      ∙ v.order;
  empty = λ h. ground arith;
}

pop-InOrder :
    (e : Event) (l : List Event) (w : WriteStatus) (s : Stream)
    → s.queue ≡ e ∷ l
    → s.stage ≡ writing
    → InOrder s
    → InOrder (pop e l w s)
unfolding pop
pop-InOrder e l WriteStatus.failed s q g v = record { order = v.order; empty = λ h. ground arith }
pop-InOrder e l WriteStatus.in_progress s q g v = v
pop-InOrder e l WriteStatus.idle s q g v = record {
  order =
      ap (λ k. k ++ s.reactor.events_queue)
        (append_assoc s.written (e ∷ []) l ∙ ap (λ k. s.written ++ k) (sym q))
      ∙ v.order;
  empty = λ h. ground arith;
}

Step-InOrder : {s t : Stream} → Step s t → InOrder s → InOrder t
unfolding count cancel subtract start_write write_done count_event on_write_done on_cancel
Step-InOrder {s} (pushes e h) v = push-InOrder e s v
Step-InOrder {s} (counts h) v = record { order = v.order; empty = v.empty }
Step-InOrder {s} cancelled v = record { order = v.order; empty = v.empty }
Step-InOrder {s} (wakes h n) v = splice-InOrder s h v
Step-InOrder {s} (subtracts h) v = record { order = v.order; empty = λ k. ground arith }
Step-InOrder {s} (writes h) v = record { order = v.order; empty = λ k. ground arith }
Step-InOrder {s} (confirms ok h w) v = record { order = v.order; empty = λ k. ground arith }
Step-InOrder {s} (pops e l h q w) v = pop-InOrder e l s.reactor.write_status s q h v

Reach-InOrder : {s t : Stream} → Reach s t → InOrder s → InOrder t
Reach-InOrder here v = v
Reach-InOrder (next r s) v = Step-InOrder s (Reach-InOrder r v)

-- In any interleaving of pushes, cancellations, confirmed or failed writes and the worker: what has
-- been written, then what the worker holds, then what is queued, is exactly what was pushed, in its
-- order; so no event is lost, doubled or overtaken.
pub Reach-order :
    (id : ℕ) (s : Stream)
    → Reach (open_stream id) s
    → s.written ++ s.queue ++ s.reactor.events_queue ≡ s.pushed
Reach-order id s r = (Reach-InOrder r (open_stream-InOrder id)).order
