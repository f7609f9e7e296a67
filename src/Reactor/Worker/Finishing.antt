-- ===== src/Reactor/Worker/Finishing.antt =====
-- A cancelled event stream comes to its end.
use openpressod.Prelude.{
  ℕ, ◌+◌, ◌*◌, ◌<◌, ◌≤◌, true, false, List, [], ◌∷◌, length, ◌≡◌, ◌≢◌, ◌⊎◌, inl, inr, refl, arith,
}
use openpressod.Messages.{Event}
use openpressod.Reactor.{WriteStatus, size_mod}
use openpressod.Reactor.Worker.Wakeup.{wakeup_iff}
use openpressod.Reactor.Worker.{
  Stage, waiting, spliced, to_write, writing, finished, Stream, open_stream, push, count, cancel,
  splice, subtract, start_write, write_done, pop, Step, Reach, pushes, counts, cancelled, wakes,
  subtracts, writes, confirms, pops, here, next,
}
use openpressod.Reactor.Worker.Ends.{Run, steps_left, Run-IsLast, Run-Reach}

-- While the worker writes, its list has an event.
record HasNext (s : Stream) : Type 0 where
  to_write : s.stage ≡ Stage.to_write → s.queue ≢ []
  writing : s.stage ≡ Stage.writing → s.queue ≢ []

Step-HasNext : {s t : Stream} → Step s t → HasNext s → HasNext t
unfolding push cancel count splice subtract start_write write_done pop
Step-HasNext {s} (pushes e h) v = record { to_write = v.to_write; writing = v.writing }
Step-HasNext {s} (counts h) v = record { to_write = v.to_write; writing = v.writing }
Step-HasNext {s} cancelled v = record { to_write = v.to_write; writing = v.writing }
Step-HasNext {s} (wakes h n) v = record {
  to_write = λ e. absurd (ground arith);
  writing = λ e. absurd (ground arith);
}
Step-HasNext {s} (subtracts h) v = record {
  to_write = λ e z. ground arith;
  writing = λ e z. ground arith;
}
Step-HasNext {s} (writes h) v = record {
  to_write = λ e. absurd (ground arith);
  writing = λ e. v.to_write h;
}
Step-HasNext {s} (confirms ok h w) v = record { to_write = v.to_write; writing = v.writing }
Step-HasNext {s} (pops e l h q w) v = record {
  to_write = λ x z. ground arith;
  writing = λ x z. ground arith;
}

Reach-HasNext : (id : ℕ) {t : Stream} → Reach (open_stream id) t → HasNext t
unfolding open_stream
Reach-HasNext id here = record {
  to_write = λ e. absurd (ground arith);
  writing = λ e. absurd (ground arith);
}
Reach-HasNext id (next r s) = Step-HasNext s (Reach-HasNext id r)

-- A step that neither pushes an event nor cancels.
abbrev pub GoesOn : Stream → Type 0
GoesOn t = (u : Stream) × Step t u × (u.pushed ≡ t.pushed) × (u.cancels ≡ t.cancels)

in_progress-cases :
    (w : WriteStatus) → (w ≡ WriteStatus.in_progress) ⊎ (w ≢ WriteStatus.in_progress)
in_progress-cases WriteStatus.in_progress = inl refl
in_progress-cases WriteStatus.idle = inr (λ e. ground arith)
in_progress-cases WriteStatus.failed = inr (λ e. ground arith)

pop_quiet :
    (e : Event) (l : List Event) (w : WriteStatus) (t : Stream)
    → ((pop e l w t).pushed ≡ t.pushed) × ((pop e l w t).cancels ≡ t.cancels)
unfolding pop
pop_quiet e l WriteStatus.failed t = (refl, refl)
pop_quiet e l WriteStatus.idle t = (refl, refl)
pop_quiet e l WriteStatus.in_progress t = (refl, refl)

pops_on :
    (k : List Event) (t : Stream)
    → t.queue ≡ k
    → k ≢ []
    → t.stage ≡ writing
    → t.reactor.write_status ≢ WriteStatus.in_progress
    → GoesOn t
pops_on [] t q n h w = absurd (n refl)
pops_on (e ∷ l) t q n h w =
    let (p, c) = pop_quiet e l t.reactor.write_status t in
    (pop e l t.reactor.write_status t, pops e l h q w, p, c)

goes_on :
    (g : Stage) (t : Stream)
    → t.stage ≡ g
    → HasNext t
    → (t.stage ≡ waiting → t.reactor.queue_size ≢ 0)
    → (t.stage ≡ finished) ⊎ GoesOn t
unfolding splice subtract start_write write_done
goes_on waiting t h v w = inr (splice t, wakes h (w h), refl, refl)
goes_on spliced t h v w = inr (subtract t, subtracts h, refl, refl)
goes_on to_write t h v w = inr (start_write t, writes h, refl, refl)
goes_on writing t h v w = elim (in_progress-cases t.reactor.write_status) [
  | inl x ↦ inr (write_done true t, confirms true h x, refl, refl)
  | inr x ↦ inr (pops_on t.queue t refl (v.writing h) h x)
]
goes_on finished t h v w = inl h

steps_left_le :
    (s : Stream)
    → s.pushing ≡ false
    → steps_left s ≤ 5 * length s.reactor.events_queue + 3 * length s.queue + 3
unfolding length
steps_left_le s p = ground arith

-- An event stream that has been cancelled, from any state that its threads can reach with no push
-- half done, and with queued events and cancellations that can be counted in 64 bits: if nothing
-- more is pushed, the worker and gRPC make at most five steps for each queued event, three for each
-- that the worker has taken, and three more; and after any number of them, the worker has finished or
-- one of them can go on.
pub cancelled_ends :
    (id n : ℕ) (s t : Stream)
    → Reach (open_stream id) s
    → s.pushing ≡ false
    → 0 < s.cancels
    → length s.reactor.events_queue + s.cancels < size_mod
    → Run s n t
    → (n ≤ 5 * length s.reactor.events_queue + 3 * length s.queue + 3)
      × ((t.stage ≡ finished) ⊎ GoesOn t)
cancelled_ends id n s t r p c b run =
    let v = Run-IsLast run p in
    let bound = steps_left_le s p in
    let reached = Run-Reach r run in
    let wakes_up = λ (h : t.stage ≡ waiting).
      (wakeup_iff id t reached h v.pushing (omega (arith, v.cancels, v.fewer))).1
        (omega (arith, v.cancels)) in
    (omega (arith, v.left, bound), goes_on t.stage t refl (Reach-HasNext id reached) wakes_up)
