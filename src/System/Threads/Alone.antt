-- ===== src/System/Threads/Alone.antt =====
-- src/async_events_dispatcher/procedures_serial_executor.hpp: the worker on its own, with the jobs
-- that it is given (94-114).
use openpressod.Prelude.{
  ℕ, zero, suc, true, Option, none, some, List, [], ◌∷◌, map, ◌≡◌, refl, sym, ap, ◌∙◌, arith,
}
use openpressod.Core.{Core, Readings}
use openpressod.Files.{Json}
use openpressod.Executor.{Executor, work, drain}
use openpressod.Executor.Pending.{
  pending, execute_all, execute_all_flags, take-pending, run-pending,
}
use openpressod.System.Threads.{
  Job, Running, notification, update, work_off, takes, runs, Reach, here, next,
}
use openpressod.Executor.Shutdown.{round_of, drain_round}
use openpressod.System.Threads.OneJob.{run_job-silent}
use openpressod.System.Threads.Jobs.{all_quiet, may_wait-ended}
use openpressod.System.Threads.Sound.{IsSound}
use openpressod.System.Threads.Steps.{Reach-IsSound}

module _ {core : Core} (json : Json) (r : Readings) where
  -- One round, if the worker neither waits nor has returned.
  unfoldable pub advance_with : List Job → Option (Executor Job) → Running core → Running core
  advance_with l none s = s
  advance_with [] (some e) s = record s { executor = e }
  advance_with (j ∷ l) (some e) s = work_off json r j e s

  unfoldable pub advance : Running core → Running core
  unfolding advance_with
  advance s = advance_with s.executor.queue (work s.executor) s

  unfoldable pub work_alone : ℕ → Running core → Running core
  work_alone zero s = s
  work_alone (suc n) s = work_alone n (advance s)

  -- Rounds of the worker are steps.
  advance_with-Reach :
      (l : List Job) (o : Option (Executor Job)) (s t : Running core)
      → t.executor.queue ≡ l
      → work t.executor ≡ o
      → Reach json s t
      → Reach json s (advance_with l o t)
  unfolding advance_with
  advance_with-Reach l none s t q w h = h
  advance_with-Reach [] (some e) s t q w h = next h (takes e q w)
  advance_with-Reach (j ∷ l) (some e) s t q w h = next h (runs r j l e q w)

  advance-Reach : (s t : Running core) → Reach json s t → Reach json s (advance t)
  unfolding advance
  advance-Reach s t h = advance_with-Reach t.executor.queue (work t.executor) s t refl refl h

  pub work_alone-Reach :
      (n : ℕ) (s t : Running core) → Reach json s t → Reach json s (work_alone n t)
  unfolding work_alone
  work_alone-Reach zero s t h = h
  work_alone-Reach (suc n) s t h = work_alone-Reach n s (advance t) (advance-Reach s t h)

  pub advance-IsSound : (s : Running core) → IsSound s → IsSound (advance s)
  advance-IsSound s v = Reach-IsSound (advance-Reach s s here) v

  pub advance_takes :
      (e : Executor Job) (s : Running core)
      → s.executor.queue ≡ []
      → work s.executor ≡ some e
      → advance s ≡ record s { executor = e }
  unfolding advance advance_with
  advance_takes e s q w =
      ap (λ l. advance_with l (work s.executor) s) q ∙ ap (λ o. advance_with [] o s) w

  pub advance_runs :
      (j : Job) (l : List Job) (e : Executor Job) (s : Running core)
      → s.executor.queue ≡ j ∷ l
      → work s.executor ≡ some e
      → advance s ≡ work_off json r j e s
  unfolding advance advance_with
  advance_runs j l e s q w =
      ap (λ k. advance_with k (work s.executor) s) q ∙ ap (λ o. advance_with (j ∷ l) o s) w

  pub work_alone-IsSound : (n : ℕ) (s : Running core) → IsSound s → IsSound (work_alone n s)
  work_alone-IsSound n s v = Reach-IsSound (work_alone-Reach n s s here) v

  -- Rounds leave the calls of the destructors as they are, and its procedure run.
  pub record IsLater (s t : Running core) : Type 0 where
    pub ending : t.ending ≡ s.ending
    pub stopping : t.executor.stopping ≡ s.executor.stopping
    pub ended : s.ended ≡ true → t.ended ≡ true

  advance_with-IsLater :
      (l : List Job) (o : Option (Executor Job)) (s : Running core)
      → s.executor.queue ≡ l
      → work s.executor ≡ o
      → IsLater s (advance_with l o s)
  unfolding advance_with work_off update
  advance_with-IsLater l none s q w = record { ending = refl; stopping = refl; ended = λ h. h }
  advance_with-IsLater [] (some e) s q w = record {
    ending = refl;
    stopping = (take-pending s.executor e q w).1;
    ended = λ h. h;
  }
  advance_with-IsLater (j ∷ l) (some e) s q w = record {
    ending = refl;
    stopping = (execute_all_flags _ e).1 ∙ (run-pending j l s.executor e q w).2;
    ended = λ h. ground arith;
  }

  pub work_alone-IsLater : (n : ℕ) (s : Running core) → IsLater s (work_alone n s)
  unfolding work_alone advance
  work_alone-IsLater zero s = record { ending = refl; stopping = refl; ended = λ h. h }
  work_alone-IsLater (suc n) s =
      let v = advance_with-IsLater s.executor.queue (work s.executor) s refl refl in
      let w = work_alone-IsLater n (advance s) in
      record {
        ending = w.ending ∙ v.ending;
        stopping = w.stopping ∙ v.stopping;
        ended = λ h. w.ended (v.ended h);
      }

  -- Behind the destructor's procedure the executor is as if it were on its own.
  alone_round :
      (l : List Job) (o : Option (Executor Job)) (s : Running core)
      → s.executor.queue ≡ l
      → work s.executor ≡ o
      → all_quiet (pending s.executor) ≡ true
      → (advance_with l o s).executor ≡ round_of o s.executor
  unfolding advance_with work_off update execute_all
  alone_round l none s q w a = refl
  alone_round [] (some e) s q w a = refl
  alone_round (j ∷ l) (some e) s q w a =
      let first = (run-pending j l s.executor e q w).0 in
      let silent =
        run_job-silent json r j (pending e) s.dispatcher (ap all_quiet (sym first) ∙ a) in
      ap (λ k. execute_all (map notification k) e) silent

  pub alone_drains :
      (n : ℕ) (s : Running core)
      → IsSound s
      → s.ended ≡ true
      → (work_alone n s).executor ≡ drain n s.executor
  unfolding work_alone advance drain
  alone_drains zero s v e = refl
  alone_drains (suc n) s v e =
      let a = may_wait-ended s.ending s.ended (pending s.executor) e v.jobs in
      let one = alone_round s.executor.queue (work s.executor) s refl refl a in
      let still = (advance_with-IsLater s.executor.queue (work s.executor) s refl refl).ended e in
      alone_drains n (advance s) (advance-IsSound s v) still
      ∙ ap (drain n) one
      ∙ sym (drain_round n (work s.executor) s.executor refl)
