-- ===== src/System/Threads/Sound.antt =====
-- The invariant of the dispatcher with its executor.
use openpressod.Prelude.{
  true, false, some, List, ◌∷◌, ◌++◌, map, ◌≡◌, ◌||◌, sym, ap, ◌∙◌, arith, inl, inr, Bool-cases,
}
use mathlib.Core.Path.{subst}
use openpressod.Core.{Core, Readings}
use openpressod.Files.{Json}
use openpressod.Status.{on_temperature, get_current_status}
use openpressod.Status.Publishing.{
  Follows, Follows-refl, told_since, told_since-news, told_since-same, on_temperature-Follows,
  last_or,
}
use openpressod.Status.Registered.{on_temperature_unregistered}
use openpressod.Machine.{heating_status}
use openpressod.Machine.Safety.{set_steam_temperature-IsSafe, IsSafe, sense-IsSafe}
use openpressod.Machine.Publishing.{set_steam_temperature-Publishes}
use openpressod.Machine.Kept.{IsSafe-IsKept, Publishes-IsKept}
use openpressod.Dispatcher.{Dispatcher}
use openpressod.Dispatcher.Sync.{InSync}
use openpressod.Executor.{Executor, work}
use openpressod.Executor.Serial.{IsSerial, worker-IsSerial}
use openpressod.Executor.Pending.{
  pending, execute_all, pending-execute_all, execute_all_flags, execute_all-IsSerial, run-pending,
}
use openpressod.System.Threads.{Job, Running, is_shut_down, notification, run_job, update, work_off}
use openpressod.System.Threads.Jobs.{
  statuses, WillKnow, WillKnow-append, statuses-append, statuses-notifications, may_wait,
  may_wait-append, all_quiet-notifications, no_shut_down-notifications, or_left,
}
use openpressod.System.Threads.Told.{IsTold, job_told}
use openpressod.System.Threads.OneJob.{run_job-Keeps, run_job-orders}

module _ {core : Core} where
  pub record IsSound (s : Running core) : Type 0 where
    pub safe : IsSafe s.dispatcher.state_manager
    pub installed : s.dispatcher.state_manager.status_manager.callback_installed ≡ true
    pub serial : IsSerial s.executor
    pub jobs : may_wait s.ending s.ended (pending s.executor) ≡ true
    pub stopped : s.executor.stopping ≡ true → s.ended ≡ true
    pub in_sync : s.ended ≡ false → InSync s.dispatcher
    pub off : s.ended ≡ true → s.dispatcher.state_manager.power ≡ false
    pub told : IsTold s.executor s.dispatcher s.dispatcher

  -- Before the status callback has been called for what is new in `d`.
  record IsNew (d : Dispatcher core) (s : Running core) : Type 0 where
    safe : IsSafe d.state_manager
    follows : Follows s.dispatcher.state_manager.status_manager d.state_manager.status_manager
    serial : IsSerial s.executor
    not_exited : s.executor.exited ≡ false
    jobs : may_wait s.ending s.ended (pending s.executor) ≡ true
    stopped : s.executor.stopping ≡ true → s.ended ≡ true
    in_sync : s.ended ≡ false → InSync d
    off : s.ended ≡ true → d.state_manager.power ≡ false
    told : IsTold s.executor s.dispatcher d

  update-IsSound : (d : Dispatcher core) (s : Running core) → IsNew d s → IsSound (update d s)
  unfolding update
  update-IsSound d s v =
      let old = s.dispatcher.state_manager.status_manager in
      let news = told_since old d.state_manager.status_manager in
      let waiting = pending s.executor in
      let added = map notification news in
      let later = pending-execute_all added s.executor in
      let known =
        ap statuses later
        ∙ statuses-append waiting added
        ∙ ap (λ l. statuses waiting ++ l) (statuses-notifications news) in
      let latest =
        v.follows.latest
        ∙ ap (last_or old.heating_status)
            (sym (told_since-news old d.state_manager.status_manager v.follows)) in
      record {
        safe = v.safe;
        installed = v.follows.is_installed;
        serial = execute_all-IsSerial added s.executor v.not_exited v.serial;
        jobs =
            ap (may_wait s.ending s.ended) later
            ∙ may_wait-append s.ending s.ended waiting added v.jobs
                (no_shut_down-notifications news) (λ e. all_quiet-notifications news);
        stopped = λ h. v.stopped (sym (execute_all_flags added s.executor).1 ∙ h);
        in_sync = v.in_sync;
        off = v.off;
        told =
            rw (known, latest)
              (WillKnow-append (statuses waiting) news old.heating_status d.events_sinks v.told);
      }

  pub work_off-IsSound :
      (json : Json) (r : Readings) (j : Job) (l : List Job) (e : Executor Job) (s : Running core)
      → s.executor.queue ≡ j ∷ l
      → work s.executor ≡ some e
      → IsSound s
      → IsSound (work_off json r j e s)
  unfolding work_off heating_status get_current_status
  work_off-IsSound json r j l e s q w v =
      let (left, x, kept) = run-pending j l s.executor e q w in
      let d = s.dispatcher in
      let n = run_job json r j d in
      let status = d.state_manager.status_manager in
      let (jobs, sync, off) =
        run_job-orders json r j (pending e) s.ending s.ended d v.safe
          (ap (may_wait s.ending s.ended) (sym left) ∙ v.jobs) v.in_sync v.off in
      update-IsSound n (record s { executor = e; ended = s.ended || is_shut_down j })
        (record {
          safe = run_job-Keeps IsSafe-IsKept set_steam_temperature-IsSafe json r j d v.safe;
          follows =
              run_job-Keeps (Publishes-IsKept status) (set_steam_temperature-Publishes status) json
                r j d (Follows-refl status v.installed);
          serial = worker-IsSerial (j ∷ l) s.executor e q w v.serial;
          not_exited = x;
          jobs = jobs;
          stopped = λ h. or_left s.ended (is_shut_down j) (v.stopped (sym kept ∙ h));
          in_sync = sync;
          off = off;
          told = job_told json r j (pending e) d (
              subst (λ k. WillKnow (statuses k) (heating_status d.state_manager) d.events_sinks)
                left v.told);
        })

  -- A sensor that is not heard any more changes nothing.
  update-same : (s : Running core) → update s.dispatcher s ≡ s
  unfolding update execute_all
  update-same s =
      ap (λ l. record s { executor = execute_all (map notification l) s.executor })
        (told_since-same s.dispatcher.state_manager.status_manager)

  abbrev sensed : Readings → Dispatcher core → Dispatcher core
  sensed r d = record d {
    state_manager = record d.state_manager {
      status_manager = on_temperature r d.state_manager.status_manager;
    };
  }

  deaf :
      (r : Readings) (s : Running core)
      → s.executor.exited ≡ true
      → IsSound s
      → on_temperature r s.dispatcher.state_manager.status_manager
        ≡ s.dispatcher.state_manager.status_manager
  deaf r s x v =
      let off = v.off (v.stopped (v.serial.done x).0) in
      on_temperature_unregistered r s.dispatcher.state_manager.status_manager
        (v.safe.shows ∙ ground (arith, off))

  pub senses-IsSound :
      (r : Readings) (s : Running core) → IsSound s → IsSound (update (sensed r s.dispatcher) s)
  senses-IsSound r s v =
      let m = s.dispatcher.state_manager in
      let status = m.status_manager in
      elim (Bool-cases s.executor.exited) [
        | inl x ↦
            let same =
              ap
                (λ t.
                  update (record s.dispatcher { state_manager = record m { status_manager = t } })
                    s)
                (deaf r s x v)
              ∙ update-same s in
            subst IsSound (sym same) v
        | inr x ↦ update-IsSound (sensed r s.dispatcher) s (record {
          safe = sense-IsSafe r m v.safe;
          follows = on_temperature-Follows status r status (Follows-refl status v.installed);
          serial = v.serial;
          not_exited = x;
          jobs = v.jobs;
          stopped = v.stopped;
          in_sync = v.in_sync;
          off = v.off;
          told = v.told;
        })
      ]
