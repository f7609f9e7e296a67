-- ===== src/System/Threads/OneJob.antt =====
-- One job of the executor: the machine, the order of the jobs, the view and the power after it.
use openpressod.Prelude.{
  Bool, true, false, not, if_ind, List, [], ◌∷◌, ◌≡◌, ◌||◌, refl, ap, ◌∙◌, arith,
}
use openpressod.Core.{Core, Readings}
use openpressod.Files.{Json}
use openpressod.Status.Publishing.{told_since, told_since-same}
use openpressod.Machine.{StateManager, get_brew_state}
use openpressod.Machine.Publishing.{stop_brew_status}
use openpressod.Machine.Modes.{stop_brew_modes}
use openpressod.Machine.Safety.{IsSafe}
use openpressod.Machine.Kept.{IsKept}
use openpressod.Dispatcher.{Dispatcher, Procedure, run, broadcast, do_stop_brew}
use openpressod.Dispatcher.Kept.{Sets, run-Keeps, destroy-Keeps}
use openpressod.Dispatcher.Sync.{InSync, run-InSync}
use openpressod.System.Safe.{destroy-IsSafe}
use openpressod.System.Threads.{Job, procedure, shut_down, is_shut_down, is_quiet, run_job}
use openpressod.System.Threads.Jobs.{
  all_quiet, may_wait, may_wait-rest, may_wait-quiet, or_true, may_wait-shut_down,
}

module _ {core : Core} where
  pub quiet_off :
      (json : Json) (r : Readings) (p : Procedure) (d : Dispatcher core)
      → is_quiet p ≡ true
      → d.state_manager.power ≡ false
      → (run json r p d).1.state_manager.power ≡ false
  unfolding run broadcast do_stop_brew
  quiet_off json r (Procedure.notify_heating_status_change x) d q off = off
  quiet_off json r (Procedure.notify_brew_step_change n) d q off = off
  quiet_off json r Procedure.brew_stopped d q off =
      if_ind (λ (n : Dispatcher core). n.state_manager.power ≡ false)
        (not (get_brew_state d.state_manager)) off ((stop_brew_modes r d.state_manager).0 ∙ off)
  quiet_off json r (Procedure.release_events_stream_reactor id) d q off = off
  quiet_off json r p d q off = absurd (ground arith)

  pub run_job-Keeps :
      {P : StateManager core → Type 0}
      → IsKept P
      → Sets P
      → (json : Json) (r : Readings) (j : Job) (d : Dispatcher core) → P d.state_manager
      → P (run_job json r j d).state_manager
  unfolding run_job
  run_job-Keeps k sets json r (procedure p) d v = run-Keeps k json r p d (λ u w e. sets) v
  run_job-Keeps k sets json r shut_down d v = destroy-Keeps k r d v

  -- What the destructor's procedure and the others do to the order, the view and the power.
  pub run_job-orders :
      (json : Json) (r : Readings) (j : Job) (l : List Job) (ending ended : Bool)
      (d : Dispatcher core)
      → IsSafe d.state_manager
      → may_wait ending ended (j ∷ l) ≡ true
      → (ended ≡ false → InSync d)
      → (ended ≡ true → d.state_manager.power ≡ false)
      → (may_wait ending (ended || is_shut_down j) l ≡ true)
        × (ended || is_shut_down j ≡ false → InSync (run_job json r j d))
        × (ended || is_shut_down j ≡ true → (run_job json r j d).state_manager.power ≡ false)
  unfolding run_job
  run_job-orders json r (procedure p) l ending true d v o sync off = (
    may_wait-rest ending true p l o,
    λ h. absurd (ground arith),
    λ h. quiet_off json r p d (may_wait-quiet ending p l o) (off refl),
  )
  run_job-orders json r (procedure p) l ending false d v o sync off = (
    may_wait-rest ending false p l o,
    λ h. run-InSync json r p d (sync refl),
    λ h. absurd (ground arith),
  )
  run_job-orders json r shut_down l ending ended d v o sync off =
      let (waits, e) = may_wait-shut_down ending ended l o in
      (
        ap (λ b. may_wait ending b l) (or_true ended) ∙ waits,
        λ h. absurd (ground (arith, or_true ended)),
        λ h. (destroy-IsSafe r d v).1,
      )

  -- Behind the destructor's procedure the status callback is not called any more.
  quiet_status :
      (json : Json) (r : Readings) (p : Procedure) (d : Dispatcher core)
      → is_quiet p ≡ true
      → (run json r p d).1.state_manager.status_manager ≡ d.state_manager.status_manager
  unfolding run broadcast do_stop_brew
  quiet_status json r (Procedure.notify_heating_status_change x) d q = refl
  quiet_status json r (Procedure.notify_brew_step_change n) d q = refl
  quiet_status json r Procedure.brew_stopped d q =
      if_ind
        (λ (n : Dispatcher core). n.state_manager.status_manager ≡ d.state_manager.status_manager)
        (not (get_brew_state d.state_manager)) refl (stop_brew_status r d.state_manager)
  quiet_status json r (Procedure.release_events_stream_reactor id) d q = refl
  quiet_status json r p d q = absurd (ground arith)

  pub run_job-silent :
      (json : Json) (r : Readings) (j : Job) (l : List Job) (d : Dispatcher core)
      → all_quiet (j ∷ l) ≡ true
      → told_since d.state_manager.status_manager (run_job json r j d).state_manager.status_manager
        ≡ []
  unfolding run_job
  run_job-silent json r (procedure p) l d q =
      ap (told_since d.state_manager.status_manager) (quiet_status json r p d (ground arith))
      ∙ told_since-same d.state_manager.status_manager
  run_job-silent json r shut_down l d q = absurd (ground arith)
