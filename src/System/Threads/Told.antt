-- ===== src/System/Threads/Told.antt =====
-- What the subscribers are still to be told, while jobs are handed over and run.
use openpressod.Prelude.{
  false, List, [], ◌∷◌, ◌++◌, map, ◌≡◌, refl, sym, ap, ◌∙◌, append_nil, inl, inr, Bool-cases,
}
use mathlib.Core.Path.{subst}
use openpressod.Messages.{HeatingStatus, heater_state}
use openpressod.Reactor.{notify_changed}
use openpressod.Core.{Core, Readings}
use openpressod.Files.{Json}
use openpressod.Status.Publishing.{last_or}
use openpressod.Machine.{heating_status}
use openpressod.Dispatcher.{Dispatcher, Procedure, run, destroy, broadcast}
use openpressod.Dispatcher.View.{SeesHeater, SeesHeater-told}
use openpressod.Dispatcher.Heater.{is_notification, run-Knows}
use openpressod.Executor.{Executor, execute}
use openpressod.Executor.Pending.{pending, pending-execute}
use openpressod.System.Threads.{Job, procedure, shut_down, run_job}
use openpressod.System.Threads.Jobs.{
  statuses, WillKnow, statuses-append, statuses-other, notification_of,
}

module _ {core : Core} where
  -- What is still to be told to the subscribers of `d`.
  abbrev pub IsTold : Executor Job → Dispatcher core → Dispatcher core → Type 0
  IsTold e d n =
      WillKnow (statuses (pending e)) d.state_manager.status_manager.heating_status n.events_sinks

  -- A procedure that announces nothing, or the destructor's, waits behind the others.
  pub enqueue_told :
      (j : Job) (e : Executor Job) (d : Dispatcher core)
      → statuses (j ∷ []) ≡ []
      → IsTold e d d
      → IsTold (execute j e) d d
  enqueue_told j e d n v =
      let same =
        ap statuses (pending-execute j e)
        ∙ statuses-append (pending e) (j ∷ [])
        ∙ ap (λ l. statuses (pending e) ++ l) n
        ∙ append_nil (statuses (pending e)) in
      rw same v

  -- The first job of the list is run.
  notification_told :
      (x : HeatingStatus) (l : List HeatingStatus) (current : HeatingStatus) (d : Dispatcher core)
      → last_or x l ≡ current
      → WillKnow l current (map (notify_changed (heater_state x)) d.events_sinks)
  notification_told x [] current d h =
      subst (λ c. SeesHeater c (map (notify_changed (heater_state x)) d.events_sinks)) h
        (SeesHeater-told x d.events_sinks)
  notification_told x (y ∷ l) current d h = h

  procedure_told :
      (json : Json) (r : Readings) (p : Procedure) (l : List HeatingStatus)
      (current : HeatingStatus) (d : Dispatcher core)
      → is_notification p ≡ false
      → heating_status d.state_manager ≡ current
      → WillKnow l current d.events_sinks
      → WillKnow l current (run json r p d).1.events_sinks
  procedure_told json r p [] current d n c v = run-Knows current json r p d n c v
  procedure_told json r p (y ∷ l) current d n c v = v

  pub job_told :
      (json : Json) (r : Readings) (j : Job) (l : List Job) (d : Dispatcher core)
      → WillKnow (statuses (j ∷ l)) (heating_status d.state_manager) d.events_sinks
      → WillKnow (statuses l) (heating_status d.state_manager) (run_job json r j d).events_sinks
  unfolding run_job destroy run broadcast
  job_told json r shut_down l d v = v
  job_told json r (procedure p) l d v = elim (Bool-cases (is_notification p)) [
    | inl n ↦
        let (x, e) = notification_of p n in
        subst
          (λ q.
            WillKnow (statuses (procedure q ∷ l)) (heating_status d.state_manager) d.events_sinks
            → WillKnow (statuses l) (heating_status d.state_manager)
                (run json r q d).1.events_sinks)
          (sym e) (notification_told x (statuses l) (heating_status d.state_manager) d) v
    | inr n ↦ procedure_told json r p (statuses l) (heating_status d.state_manager) d n refl (
        subst (λ k. WillKnow k (heating_status d.state_manager) d.events_sinks)
          (statuses-other p l n) v)
  ]
