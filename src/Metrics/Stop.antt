-- ===== src/Metrics/Stop.antt =====
-- How a metrics stream ends.
use openpressod.Prelude.{
  ℕ, ◌+◌, ◌≤◌, true, length, length-snoc, ◌≡◌, ◌≢◌, ◌⊎◌, inl, inr, refl, arith,
}
use openpressod.Metrics.{MetricsReadings, WriteStatus, make_metrics, on_write_done}
use openpressod.Metrics.Worker.{
  Stage, reading, writing, pausing, finished, MetricsStream, start_write, after_write, write_done,
  stop, Step, cancels, writes, confirms, passes, stops, times_out, Run, here, next,
}

-- How many steps are left to a stream that is cancelled, and how many writes.
abbrev steps_left : Stage → WriteStatus → ℕ
steps_left reading w = 4
steps_left writing WriteStatus.in_progress = 3
steps_left writing w = 2
steps_left pausing w = 1
steps_left finished w = 0

abbrev writes_left : Stage → ℕ
writes_left reading = 1
writes_left _ = 0

-- After `n` steps from a cancelled stream that had started `k` writes.
record Closing (n k : ℕ) (t : MetricsStream) : Type 0 where
  is_cancelled : t.reactor.cancelled ≡ true
  steps : n + steps_left t.stage t.reactor.write_status ≤ 4
  started : length t.started + writes_left t.stage ≤ k + 1

Step-Closing : {n k : ℕ} {t u : MetricsStream} → Step t u → Closing n k t → Closing (n + 1) k u
unfolding start_write after_write write_done on_write_done stop
Step-Closing {n} {k} {t} (cancels h) v = absurd (ground (arith, v.is_cancelled))
Step-Closing {n} {k} {t} (writes r h) v = record {
  is_cancelled = v.is_cancelled;
  steps = ground (arith, v.steps);
  started = ground (arith, v.started, length-snoc t.started (make_metrics r t.reactor));
}
Step-Closing {n} {k} {t} (confirms good h w) v = record {
  is_cancelled = v.is_cancelled;
  steps = ground (arith, v.steps);
  started = v.started;
}
Step-Closing {n} {k} {t} (passes h w) v = record {
  is_cancelled = v.is_cancelled;
  steps = ground (arith, v.steps);
  started = ground (arith, v.started);
}
Step-Closing {n} {k} {t} (stops h c) v = record {
  is_cancelled = v.is_cancelled;
  steps = ground (arith, v.steps);
  started = ground (arith, v.started);
}
Step-Closing {n} {k} {t} (times_out h c) v = absurd (ground (arith, v.is_cancelled))

Run-Closing : {s t : MetricsStream} {n k : ℕ} → Run s n t → Closing 0 k s → Closing n k t
Run-Closing here v = v
Run-Closing (next r st) v = Step-Closing st (Run-Closing r v)

stage-cases : (g : Stage) → (g ≡ reading) ⊎ (g ≡ writing) ⊎ (g ≡ pausing) ⊎ (g ≡ finished)
stage-cases reading = inl refl
stage-cases writing = inr (inl refl)
stage-cases pausing = inr (inr (inl refl))
stage-cases finished = inr (inr (inr refl))

in_progress-cases :
    (w : WriteStatus) → (w ≡ WriteStatus.in_progress) ⊎ (w ≢ WriteStatus.in_progress)
in_progress-cases WriteStatus.in_progress = inl refl
in_progress-cases WriteStatus.idle = inr (λ e. ground arith)
in_progress-cases WriteStatus.failed = inr (λ e. ground arith)

Step-exists :
    (r : MetricsReadings) (t : MetricsStream)
    → t.reactor.cancelled ≡ true
    → (t.stage ≡ finished) ⊎ ((u : MetricsStream) × Step t u)
Step-exists r t c = elim (stage-cases t.stage) [
  | inl h ↦ inr (start_write r t, writes r h)
  | inr (inl h) ↦ elim (in_progress-cases t.reactor.write_status) [
    | inl w ↦ inr (write_done true t, confirms true h w)
    | inr w ↦ inr (after_write t, passes h w)
  ]
  | inr (inr (inl h)) ↦ inr (stop t, stops h c)
  | inr (inr (inr h)) ↦ inl h
]

-- After its cancellation a metrics stream makes at most four more steps and starts at most one more
-- write, and as long as its worker has not finished, some step can be made.
pub Run-stops :
    (r : MetricsReadings) (s t : MetricsStream) (n : ℕ)
    → s.reactor.cancelled ≡ true
    → Run s n t
    → (n ≤ 4)
      × (length t.started ≤ length s.started + 1)
      × ((t.stage ≡ finished) ⊎ ((u : MetricsStream) × Step t u))
Run-stops r s t n c run =
    let start : Closing 0 (length s.started) s = record {
      is_cancelled = c;
      steps = ground arith;
      started = ground arith;
    } in
    let v = Run-Closing run start in
    (omega (arith, v.steps), omega (arith, v.started), Step-exists r t v.is_cancelled)
