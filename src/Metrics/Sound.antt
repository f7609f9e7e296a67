-- ===== src/Metrics/Sound.antt =====
-- What a metrics stream does, and why it ends.
use mathlib.Core.Path.{subst}
use openpressod.Prelude.{
  ◌++◌, List, [], ◌∷◌, ℕ, ℤ, Option, some, Bool, true, ◌≡◌, ◌⊎◌, inl, inr, refl, arith,
}
use openpressod.ConfigMaker.Components.{Label}
use openpressod.Metrics.{
  Tells, make_metrics-Tells, MetricsMessage, PidSource, metrics, make, metrics-none_iff,
  get_pid_controller_state, pid_source_to_controller_label, MetricsStreamReactor, MetricsReadings,
  WriteStatus, make_metrics, on_write_done, on_cancel,
}
use openpressod.Metrics.Worker.{
  writing, finished, MetricsStream, open_stream, start_write, after_write, write_done, cancel, stop,
  go_on, Step, cancels, writes, confirms, passes, stops, times_out, Run, here, next,
}

-- As many readings as messages, and each message tells the reading at its place.
abbrev pub AllTell : Option Label → List MetricsReadings → List MetricsMessage → Type 0
AllTell source [] [] = Unit
AllTell source (r ∷ k) (m ∷ l) = Tells source r m × AllTell source k l
AllTell source _ _ = ⊥

AllTell-snoc :
    (source : Option Label) (k : List MetricsReadings) (l : List MetricsMessage)
    (r : MetricsReadings) (m : MetricsMessage)
    → AllTell source k l
    → Tells source r m
    → AllTell source (k ++ r ∷ []) (l ++ m ∷ [])
AllTell-snoc source [] [] r m v t = (t, tt)
AllTell-snoc source (x ∷ k) (y ∷ l) r m v t = (v.0, AllTell-snoc source k l r m v.1 t)
AllTell-snoc source [] (y ∷ l) r m v t = absurd v
AllTell-snoc source (x ∷ k) [] r m v t = absurd v

-- One write at a time, no `Finish` in the middle of one, and a reason for each `Finish`.
pub record IsSound (source : Option Label) (t : MetricsStream) : Type 0 where
  pub one_write : t.reactor.write_status ≡ WriteStatus.in_progress → t.stage ≡ writing
  pub reason :
      t.stage ≡ finished
      → (t.reactor.cancelled ≡ true) ⊎ (t.reactor.write_status ≡ WriteStatus.failed)
  pub same_source : t.reactor.pid_controller_state ≡ source
  pub sent : AllTell source t.taken t.started

Step-IsSound : {o : Option Label} {t u : MetricsStream} → Step t u → IsSound o t → IsSound o u
unfolding start_write after_write write_done on_write_done stop go_on cancel on_cancel
Step-IsSound {o} {t} (cancels h) v = record {
  one_write = λ w. v.one_write (ground arith);
  reason = λ f. inl (ground arith);
  same_source = ground (arith, v.same_source);
  sent = v.sent;
}
Step-IsSound {o} {t} (writes r h) v = record {
  one_write = λ w. refl;
  reason = λ f. absurd (ground arith);
  same_source = v.same_source;
  sent = AllTell-snoc o t.taken t.started r (make_metrics r t.reactor) v.sent (
      subst (λ x. Tells x r (make_metrics r t.reactor)) v.same_source
        (make_metrics-Tells r t.reactor));
}
Step-IsSound {o} {t} (confirms good h w) v = record {
  one_write = λ i. h;
  reason = λ f. absurd (ground arith);
  same_source = v.same_source;
  sent = v.sent;
}
Step-IsSound {o} {t} (passes h w) v = record {
  one_write = λ i. absurd (w i);
  reason = λ f. inr (ground arith);
  same_source = v.same_source;
  sent = v.sent;
}
Step-IsSound {o} {t} (stops h c) v = record {
  one_write = λ i. absurd (ground (arith, v.one_write i));
  reason = λ f. inl c;
  same_source = v.same_source;
  sent = v.sent;
}
Step-IsSound {o} {t} (times_out h c) v = record {
  one_write = λ i. absurd (ground (arith, v.one_write i));
  reason = λ f. absurd (ground arith);
  same_source = v.same_source;
  sent = v.sent;
}

Run-from-IsSound :
    {o : Option Label} {s t : MetricsStream} {n : ℕ} → Run s n t → IsSound o s → IsSound o t
Run-from-IsSound here v = v
Run-from-IsSound (next r st) v = Step-IsSound st (Run-from-IsSound r v)

-- A stream that the service has opened never starts a write or finishes while a write is in
-- progress, finishes only after its cancellation or a failed write, and keeps to the controller that
-- the request's source names. It starts to write one message for each reading that it has taken, in
-- their order: the message has the reading's pressure, weight, flow rate and temperature, exactly the
-- brew timer's time with nanoseconds of less than a second, and the terms of the controller that the
-- source names, or none if it names none.
pub Run-IsSound :
    (monitored : Label → Bool) (seconds nanos : ℤ) (source : PidSource) (m : MetricsStreamReactor)
    (t : MetricsStream) (n : ℕ)
    → metrics monitored seconds nanos source ≡ some m
    → Run (open_stream m) n t
    → IsSound (pid_source_to_controller_label source) t
unfolding open_stream metrics make get_pid_controller_state
Run-IsSound monitored seconds nanos source m t n h run =
    let start : IsSound (pid_source_to_controller_label source) (open_stream m) = record {
      one_write = λ w. absurd (ground arith);
      reason = λ f. absurd (ground arith);
      same_source = (metrics-none_iff monitored seconds nanos source).1 m h;
      sent = tt;
    } in
    Run-from-IsSound run start
