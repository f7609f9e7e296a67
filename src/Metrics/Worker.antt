-- ===== src/Metrics/Worker.antt =====
-- src/service/metrics_stream_reactor.cpp: the worker thread of one metrics stream and gRPC's calls of
-- the reactor, as interleaved steps.
use openpressod.Prelude.{ℕ, ◌+◌, Bool, true, false, List, [], ◌∷◌, ◌++◌, ◌≡◌, ◌≢◌}
use openpressod.Metrics.{
  MetricsStreamReactor, MetricsReadings, MetricsMessage, WriteStatus, make_metrics, on_write_done,
  on_cancel,
}

-- Where the worker stands: before it reads the sensors; in the wait for the write; in the wait for
-- the cancellation, with a time limit; after `Finish`.
pub data Stage : Type 0 where
  reading writing pausing finished : Stage

-- `started` are the messages that `StartWrite` was called with, the latest last, and `taken` the
-- readings of the passes that made them.
pub record MetricsStream : Type 0 where
  pub reactor : MetricsStreamReactor
  pub stage : Stage
  pub started : List MetricsMessage
  pub taken : List MetricsReadings

unfoldable pub open_stream : MetricsStreamReactor → MetricsStream
open_stream m = record { reactor = m; stage = reading; started = []; taken = [] }

-- The readings, `m_writeStatus.store(InProgress)` and `StartWrite`.
unfoldable pub start_write : MetricsReadings → MetricsStream → MetricsStream
start_write r s = record s {
  reactor = record s.reactor { write_status = WriteStatus.in_progress };
  stage = writing;
  started = s.started ++ make_metrics r s.reactor ∷ [];
  taken = s.taken ++ r ∷ [];
}

abbrev after_status : WriteStatus → Stage
after_status WriteStatus.failed = finished
after_status _ = pausing

-- After the wait for the write: `break` if it failed.
unfoldable pub after_write : MetricsStream → MetricsStream
after_write s = record s { stage = after_status s.reactor.write_status }

unfoldable pub write_done : Bool → MetricsStream → MetricsStream
write_done good s = record s { reactor = on_write_done good s.reactor }

unfoldable pub cancel : MetricsStream → MetricsStream
cancel s = record s { reactor = (on_cancel s.reactor).1 }

unfoldable pub stop : MetricsStream → MetricsStream
stop s = record s { stage = finished }

unfoldable pub go_on : MetricsStream → MetricsStream
go_on s = record s { stage = reading }

-- gRPC calls `OnCancel` at most once. The wait for the cancellation ends with `timeout` only if the
-- promise has no value.
pub data Step (s : MetricsStream) : MetricsStream → Type 0 where
  cancels : s.reactor.cancelled ≡ false → Step s (cancel s)
  writes : (r : MetricsReadings) → s.stage ≡ reading → Step s (start_write r s)
  confirms :
      (good : Bool)
      → s.stage ≡ writing
      → s.reactor.write_status ≡ WriteStatus.in_progress
      → Step s (write_done good s)
  passes :
      s.stage ≡ writing → s.reactor.write_status ≢ WriteStatus.in_progress → Step s (after_write s)
  stops : s.stage ≡ pausing → s.reactor.cancelled ≡ true → Step s (stop s)
  times_out : s.stage ≡ pausing → s.reactor.cancelled ≡ false → Step s (go_on s)

-- A run, with the number of its steps.
pub data Run (s : MetricsStream) : ℕ → MetricsStream → Type 0 where
  here : Run s 0 s
  next : {n : ℕ} {t u : MetricsStream} → Run s n t → Step t u → Run s (n + 1) u
