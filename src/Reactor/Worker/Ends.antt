-- ===== src/Reactor/Worker/Ends.antt =====
-- How an event stream ends: what the worker and gRPC still do when nothing is pushed any more.
use openpressod.Prelude.{
  ℕ, ◌+◌, ◌*◌, ◌≤◌, false, List, [], ◌∷◌, length, length-snoc, ◌≡◌, ◌≢◌, refl, ap, arith,
}
use openpressod.Messages.{Event}
use openpressod.Reactor.{WriteStatus, on_write_done}
use openpressod.Reactor.Worker.Wakeup.{bit}
use openpressod.Reactor.Worker.{
  Stage, waiting, spliced, to_write, writing, finished, Stream, push, count, cancel, splice,
  subtract, start_write, write_done, pop, Step, Reach, pushes, counts, cancelled, wakes, subtracts,
  writes, confirms, pops, next,
}

-- Steps of the worker and of gRPC: nothing is pushed, and `OnCancel` is not called.
pub data Run (s : Stream) : ℕ → Stream → Type 0 where
  starts : Run s 0 s
  steps :
      {n : ℕ} {t u : Stream}
      → Run s n t
      → Step t u
      → u.pushed ≡ t.pushed
      → u.cancels ≡ t.cancels
      → Run s (n + 1) u

abbrev pub spliced_left : List Event → ℕ
spliced_left [] = 1
spliced_left (e ∷ l) = 3

abbrev pub stage_left : Stage → WriteStatus → List Event → ℕ
stage_left waiting w l = 2
stage_left spliced w l = spliced_left l
stage_left to_write w l = 2
stage_left writing WriteStatus.in_progress l = 1
stage_left writing w l = 0
stage_left finished w l = 0

-- The events that are still to be written; after the end there are none.
abbrev pub events_left : Stage → List Event → ℕ
events_left finished l = 0
events_left waiting l = 0
events_left _ l = 3 * length l

-- At most so many steps are left.
abbrev pub steps_left : Stream → ℕ
steps_left s =
    5 * length s.reactor.events_queue
    + bit s.pushing
    + events_left s.stage s.queue
    + stage_left s.stage s.reactor.write_status s.queue

splice_left : (s : Stream) → s.stage ≡ waiting → steps_left (splice s) + 1 ≤ steps_left s
unfolding splice length
splice_left s h = ground arith

subtract_left : (s : Stream) → s.stage ≡ spliced → steps_left (subtract s) + 1 ≤ steps_left s
unfolding subtract length
subtract_left s h = ground arith

pop_left :
    (e : Event) (l : List Event) (s : Stream)
    → s.stage ≡ writing
    → s.queue ≡ e ∷ l
    → s.reactor.write_status ≢ WriteStatus.in_progress
    → steps_left (pop e l s.reactor.write_status s) + 1 ≤ steps_left s
unfolding pop length
pop_left e l s h q w = ground arith

-- What the steps leave, apart from that.
pub record IsLast (s t : Stream) (n : ℕ) : Type 0 where
  pub left : n + steps_left t ≤ steps_left s
  pub cancels : t.cancels ≡ s.cancels
  pub pushing : t.pushing ≡ false
  pub fewer : length t.reactor.events_queue ≤ length s.reactor.events_queue

Step-IsLast :
    {s t u : Stream} {n : ℕ}
    → Step t u
    → u.pushed ≡ t.pushed
    → u.cancels ≡ t.cancels
    → IsLast s t n
    → IsLast s u (n + 1)
unfolding push cancel count splice subtract start_write write_done on_write_done pop length
Step-IsLast {s} {t} (pushes e h) p c v =
    absurd (ground (arith, length-snoc t.pushed e, ap length p))
Step-IsLast {s} {t} (counts h) p c v = absurd (ground (arith, v.pushing))
Step-IsLast {s} {t} cancelled p c v = absurd (omega (arith, c))
Step-IsLast {s} {t} (wakes h n) p c v = record {
  left = let x = splice_left t h in omega (arith, x, v.left);
  cancels = v.cancels;
  pushing = v.pushing;
  fewer = omega arith;
}
Step-IsLast {s} {t} (subtracts h) p c v = record {
  left = let x = subtract_left t h in omega (arith, x, v.left);
  cancels = v.cancels;
  pushing = v.pushing;
  fewer = v.fewer;
}
Step-IsLast {s} {t} (writes h) p c v = record {
  left = ground (arith, v.left);
  cancels = v.cancels;
  pushing = v.pushing;
  fewer = v.fewer;
}
Step-IsLast {s} {t} (confirms ok h w) p c v = record {
  left = ground (arith, v.left);
  cancels = v.cancels;
  pushing = v.pushing;
  fewer = v.fewer;
}
Step-IsLast {s} {t} (pops e l h q w) p c v = record {
  left = let x = pop_left e l t h q w in omega (arith, x, v.left);
  cancels = ground (arith, v.cancels);
  pushing = ground (arith, v.pushing);
  fewer = ground (arith, v.fewer);
}

pub Run-IsLast : {s t : Stream} {n : ℕ} → Run s n t → s.pushing ≡ false → IsLast s t n
Run-IsLast starts h = record {
  left = omega arith;
  cancels = refl;
  pushing = h;
  fewer = omega arith;
}
Run-IsLast (steps r st p c) h = Step-IsLast st p c (Run-IsLast r h)

pub Run-Reach : {i s t : Stream} {n : ℕ} → Reach i s → Run s n t → Reach i t
Run-Reach r starts = r
Run-Reach r (steps run st p c) = next (Run-Reach r run) st
