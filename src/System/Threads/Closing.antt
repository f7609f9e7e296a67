-- ===== src/System/Threads/Closing.antt =====
-- src/async_events_dispatcher/async_events_dispatcher.cpp: the end of the dispatcher (34-47), whose
-- destructor waits for its procedure; after that the executor's destructor is called, which joins.
use openpressod.Prelude.{
  ℕ, zero, suc, ◌+◌, ◌*◌, ◌<◌, ◌≤◌, true, false, List, [], ◌∷◌, ◌++◌, length, map, ◌≡◌, refl, sym,
  ap, ◌∙◌, arith, inl, inr, Bool-cases,
}
use openpressod.Executor.Shutdown.{returns}
use openpressod.Core.{Core, Readings}
use openpressod.Files.{Json}
use openpressod.Status.Publishing.{told_since}
use openpressod.Dispatcher.{Dispatcher, run}
use openpressod.Executor.{size_mod, stop}
use openpressod.Executor.Pending.{
  pending, pending-execute_all, take-pending, run-pending, wakes, goes_on,
}
use openpressod.System.Threads.{
  Job, procedure, shut_down, Running, notification, run_job, update, work_off, open_threads, Reach,
  stops,
}
use openpressod.Daemon.Started.{IsReady}
use openpressod.System.Threads.Known.{IsClosed, IsSound-IsClosed}
use openpressod.System.Threads.Sound.{IsSound}
use openpressod.System.Threads.Steps.{Step-IsSound, Reach-IsSound, open_threads-IsSound}
use openpressod.System.Threads.Alone.{
  alone_drains, advance, advance-IsSound, advance_takes, advance_runs, work_alone,
  work_alone-IsSound, work_alone-IsLater,
}
use openpressod.Executor.Serial.{running}
use openpressod.System.Threads.Jobs.{
  unless, may_wait-ending, closes, closes-append, all_quiet-notifications, or_true,
}

-- The jobs before the destructor's.
abbrev pub before : List Job → ℕ
before [] = 0
before (procedure p ∷ l) = suc (before l)
before (shut_down ∷ l) = 0

before-append : (l k : List Job) → closes l ≡ true → before (l ++ k) ≡ before l
before-append [] k h = absurd (ground arith)
before-append (procedure p ∷ l) k h = ap suc (before-append l k h)
before-append (shut_down ∷ l) k h = refl

-- One round is needed to take what is queued, if the worker has nothing.
abbrev waits : List Job → ℕ
waits [] = 1
waits (j ∷ l) = 0

waits_le : (l : List Job) → waits l ≤ 1
waits_le [] = omega arith
waits_le (j ∷ l) = omega arith

module _ {core : Core} (json : Json) (r : Readings) where
  -- The shared queue can be counted in 64 bits during so many rounds.
  abbrev pub Countable : ℕ → Running core → Type 0
  Countable n s = (k : ℕ) → k < n → length (work_alone json r k s).executor.m_queue + 1 < size_mod

  Countable-rest : (n : ℕ) (s : Running core) → Countable (suc n) s → Countable n (advance json r s)
  unfolding work_alone
  Countable-rest n s c k h = c (suc k) (omega arith)

-- So many rounds are enough for the destructor's procedure to be run.
unfoldable EndsWithin : Core → Json → Readings → ℕ → Type 0
EndsWithin core json r n =
    (s : Running core)
    → IsSound s
    → s.ended ≡ false
    → closes (pending s.executor) ≡ true
    → Countable json r n s
    → 2 * before (pending s.executor) + waits s.executor.queue + 1 ≤ n
    → (work_alone json r n s).ended ≡ true

module _ {core : Core} (json : Json) (r : Readings) where
  takes_on :
      (n : ℕ) (m : List Job) (s : Running core)
      → EndsWithin core json r n
      → IsSound s
      → s.executor.exited ≡ false
      → s.ended ≡ false
      → closes (pending s.executor) ≡ true
      → Countable json r (suc n) s
      → 2 * before (pending s.executor) + 2 ≤ suc n
      → s.executor.queue ≡ []
      → s.executor.m_queue ≡ m
      → (work_alone json r n (advance json r s)).ended ≡ true
  unfolding EndsWithin work_alone
  takes_on n [] s ih v x e c b h q k =
      let empty = ap (λ l. l ++ s.executor.m_queue) q ∙ k in
      absurd (ground (arith, ap closes empty, c))
  takes_on n (j ∷ l) s ih v x e c b h q k =
      let (t, w, taken) = wakes j l s.executor v.serial x k (b 0 (omega arith)) q in
      let same = advance_takes json r t s q w in
      let left = ap (λ u. pending u.executor) same ∙ (take-pending s.executor t q w).0 in
      ih (advance json r s) (advance-IsSound json r s v) (ap (λ u. u.ended) same ∙ e)
        (ap closes left ∙ c) (Countable-rest json r n s b)
        (ground (arith, ap before left, ap (λ u. waits u.executor.queue) same, ap waits taken))

  runs_on :
      (n : ℕ) (j : Job) (l : List Job) (s : Running core)
      → EndsWithin core json r n
      → IsSound s
      → s.executor.exited ≡ false
      → s.ended ≡ false
      → closes (pending s.executor) ≡ true
      → Countable json r (suc n) s
      → 2 * before (pending s.executor) + 1 ≤ suc n
      → s.executor.queue ≡ j ∷ l
      → (work_alone json r n (advance json r s)).ended ≡ true
  unfolding EndsWithin work_off update run_job
  runs_on n shut_down l s ih v x e c b h q =
      let (t, w) = goes_on shut_down l s.executor x q in
      let same = advance_runs json r shut_down l t s q w in
      (work_alone-IsLater json r n (advance json r s)).ended
        (ap (λ u. u.ended) same ∙ or_true s.ended)
  runs_on n (procedure p) l s ih v x e c b h q =
      let (t, w) = goes_on (procedure p) l s.executor x q in
      let same = advance_runs json r (procedure p) l t s q w in
      let news =
        told_since s.dispatcher.state_manager.status_manager
          (run json r p s.dispatcher).1.state_manager.status_manager in
      let added = map notification news in
      let first = (run-pending (procedure p) l s.executor t q w).0 in
      let rest : closes (pending t) ≡ true = sym (ap closes first) ∙ c in
      let left = ap (λ u. pending u.executor) same ∙ pending-execute_all added t in
      ih (advance json r s) (advance-IsSound json r s v) (ap (λ u. u.ended) same ∙ ground arith)
        (ap closes left ∙ closes-append (pending t) added rest (all_quiet-notifications news))
        (Countable-rest json r n s b)
        (ground (
          arith,
          ap before left,
          before-append (pending t) added rest,
          ap before first,
          waits_le (advance json r s).executor.queue,
        ))

  is_open : (s : Running core) → IsSound s → s.ended ≡ false → s.executor.exited ≡ false
  is_open s v e = elim (Bool-cases s.executor.exited) [
    | inl x ↦ absurd (ground (arith, v.stopped (v.serial.done x).0))
    | inr x ↦ x
  ]

  ends_on :
      (n : ℕ) (l : List Job) (s : Running core)
      → EndsWithin core json r n
      → IsSound s
      → s.ended ≡ false
      → closes (pending s.executor) ≡ true
      → Countable json r (suc n) s
      → 2 * before (pending s.executor) + waits l + 1 ≤ suc n
      → s.executor.queue ≡ l
      → (work_alone json r n (advance json r s)).ended ≡ true
  ends_on n [] s ih v e c b h q =
      takes_on n s.executor.m_queue s ih v (is_open s v e) e c b (omega arith) q refl
  ends_on n (j ∷ l) s ih v e c b h q = runs_on n j l s ih v (is_open s v e) e c b (omega arith) q

ends_within : (core : Core) (json : Json) (r : Readings) (n : ℕ) → EndsWithin core json r n
unfolding EndsWithin work_alone
ends_within core json r zero s v e c b h = absurd (omega arith)
ends_within core json r (suc n) s v e c b h =
    ends_on json r n s.executor.queue s (ends_within core json r n) v e c b h refl

before_le : (l : List Job) → before l ≤ length l
unfolding length
before_le [] = omega arith
before_le (procedure p ∷ l) = let h = before_le l in omega arith
before_le (shut_down ∷ l) = omega arith

abbrev pub closing_rounds : {core : Core} → Running core → ℕ
closing_rounds s = 2 * length (pending s.executor) + 2

module _ {core : Core} (json : Json) (r : Readings) where
  -- For a dispatcher that is ready, as the daemon's constructor leaves it, whatever the threads
  -- have done until its destructor has been called: as long as the shared queue can be counted in
  -- 64 bits, the worker on its own runs the procedure that the destructor waits for within two
  -- rounds for each waiting job and two more; when the executor's destructor is then called, the
  -- worker returns within one round for each job that is left and two more; and then every job that
  -- was ever handed over has been run, in order, the power, both heaters and the brew profiler are
  -- off, and every subscriber knows that the heater is DISABLED.
  pub destructors_return :
      (d : Dispatcher core) (s : Running core)
      → IsReady d
      → Reach json (open_threads d) s
      → s.ending ≡ true
      → s.ended ≡ false
      → Countable json r (suc (closing_rounds s)) s
      → let t = work_alone json r (closing_rounds s) s in
        let u = record t { executor = stop t.executor } in
        let n = length t.executor.queue + length t.executor.m_queue + 2 in
        let w = work_alone json r n u in (t.ended ≡ true) × (w.executor.exited ≡ true) × IsClosed w
  unfolding stop EndsWithin
  destructors_return d s ready history ending e b =
      let sound = Reach-IsSound history (open_threads-IsSound d ready) in
      let n = closing_rounds s in
      let closing = may_wait-ending s.ending s.ended (pending s.executor) ending e sound.jobs in
      let bound = before_le (pending s.executor) in
      let t = work_alone json r n s in
      let ended =
        ends_within core json r n s sound e closing (λ k h. b k (omega arith))
          (ground (arith, bound, waits_le s.executor.queue)) in
      let kept = work_alone-IsLater json r n s in
      let v = work_alone-IsSound json r n s sound in
      let not_stopped = kept.stopping ∙ unless s.executor.stopping e sound.stopped in
      let u = record t { executor = stop t.executor } in
      let m = length t.executor.queue + length t.executor.m_queue + 2 in
      let stopped = Step-IsSound {json = json} (stops ended not_stopped) v in
      let exited =
        ap (λ e. e.exited) (alone_drains json r m u stopped ended)
        ∙ returns (stop t.executor) stopped.serial refl (running t.executor not_stopped v.serial)
            (b n (omega arith)) in
      (
        ended,
        exited,
        IsSound-IsClosed (work_alone json r m u) (work_alone-IsSound json r m u stopped) exited,
      )
