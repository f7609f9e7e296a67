-- ===== src/System/Threads/Steps.antt =====
-- Every step of the threads keeps the invariant.
use openpressod.Prelude.{true, false, [], ◌∷◌, ◌++◌, ◌≡◌, refl, sym, ap, ◌∙◌, arith}
use openpressod.Core.{Core}
use openpressod.Files.{Json}
use openpressod.Dispatcher.{Dispatcher, Procedure}
use openpressod.Dispatcher.Heater.{is_notification}
use openpressod.Daemon.Started.{IsReady}
use openpressod.System.Safe.{moves-IsSafe}
use openpressod.Executor.{make, execute, stop}
use openpressod.Executor.Serial.{
  make-IsSerial, execute-IsSerial, stop-IsSerial, worker-IsSerial, running,
}
use openpressod.Executor.Pending.{pending, pending-execute, take-pending}
use openpressod.System.Threads.{
  procedure, shut_down, Running, is_quiet, open_threads, enqueue, Step, Reach, calls, ends, stops,
  takes, runs, senses, moves, here, next,
}
use openpressod.System.Threads.Jobs.{
  statuses-other, may_wait, may_wait-append, closes-snoc, may_wait-open, unless,
}
use openpressod.System.Threads.Told.{enqueue_told}
use openpressod.System.Threads.Sound.{IsSound, work_off-IsSound, senses-IsSound}

module _ {core : Core} where
  calls-IsSound :
      (p : Procedure) (s : Running core)
      → is_notification p ≡ false
      → s.executor.exited ≡ false
      → (s.ending ≡ true → is_quiet p ≡ true)
      → IsSound s
      → IsSound (enqueue (procedure p) s)
  unfolding enqueue execute
  calls-IsSound p s n x q v = record {
    safe = v.safe;
    installed = v.installed;
    serial = execute-IsSerial (procedure p) s.executor x v.serial;
    jobs =
        ap (may_wait s.ending s.ended) (pending-execute (procedure p) s.executor)
        ∙ may_wait-append s.ending s.ended (pending s.executor) (procedure p ∷ []) v.jobs refl
            (λ e. ground (arith, q e));
    stopped = v.stopped;
    in_sync = v.in_sync;
    off = v.off;
    told = enqueue_told (procedure p) s.executor s.dispatcher (statuses-other p [] n) v.told;
  }

  ends-IsSound :
      (s : Running core)
      → s.ending ≡ false
      → IsSound s
      → IsSound (record (enqueue shut_down s) { ending = true })
  unfolding enqueue execute
  ends-IsSound s n v =
      let (order, not_ended) = may_wait-open s.ending s.ended (pending s.executor) n v.jobs in
      record {
        safe = v.safe;
        installed = v.installed;
        serial =
            execute-IsSerial shut_down s.executor
              (running s.executor (unless s.executor.stopping not_ended v.stopped) v.serial)
              v.serial;
        jobs =
            ap (may_wait true s.ended) (pending-execute shut_down s.executor)
            ∙ ap (λ b. may_wait true b (pending s.executor ++ shut_down ∷ [])) not_ended
            ∙ closes-snoc (pending s.executor) order;
        stopped = v.stopped;
        in_sync = v.in_sync;
        off = v.off;
        told = enqueue_told shut_down s.executor s.dispatcher refl v.told;
      }

  pub Step-IsSound : {json : Json} {s t : Running core} → Step json s t → IsSound s → IsSound t
  unfolding stop
  Step-IsSound {s = s} (calls p n x q) v = calls-IsSound p s n x q v
  Step-IsSound {s = s} (ends n) v = ends-IsSound s n v
  Step-IsSound {s = s} (stops e n) v = record {
    safe = v.safe;
    installed = v.installed;
    serial = stop-IsSerial s.executor n v.serial;
    jobs = v.jobs;
    stopped = λ h. e;
    in_sync = v.in_sync;
    off = v.off;
    told = v.told;
  }
  Step-IsSound {s = s} (takes e q w) v =
      let (same, kept) = take-pending s.executor e q w in
      record {
        safe = v.safe;
        installed = v.installed;
        serial = worker-IsSerial [] s.executor e q w v.serial;
        jobs = ap (may_wait s.ending s.ended) same ∙ v.jobs;
        stopped = λ h. v.stopped (sym kept ∙ h);
        in_sync = v.in_sync;
        off = v.off;
        told = rw same v.told;
      }
  Step-IsSound {json} {s} (runs r j l e q w) v = work_off-IsSound json r j l e s q w v
  Step-IsSound {s = s} (senses r) v = senses-IsSound r s v
  Step-IsSound {s = s} (moves p h) v = record {
    safe = moves-IsSafe p s.dispatcher h v.safe;
    installed = v.installed;
    serial = v.serial;
    jobs = v.jobs;
    stopped = v.stopped;
    in_sync = v.in_sync;
    off = v.off;
    told = v.told;
  }

  pub Reach-IsSound : {json : Json} {s t : Running core} → Reach json s t → IsSound s → IsSound t
  Reach-IsSound here v = v
  Reach-IsSound (next r s) v = Step-IsSound s (Reach-IsSound r v)

  pub open_threads-IsSound : (d : Dispatcher core) → IsReady d → IsSound (open_threads d)
  unfolding open_threads make
  open_threads-IsSound d v = record {
    safe = v.safe;
    installed = v.installed;
    serial = make-IsSerial;
    jobs = refl;
    stopped = λ h. absurd (ground arith);
    in_sync = λ h. rw v.no_sinks tt;
    off = λ h. absurd (ground arith);
    told = rw v.no_sinks tt;
  }
