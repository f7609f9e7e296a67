-- ===== src/Executor/Shutdown.antt =====
-- The executor while it is destroyed: the worker runs what is left and returns.
use openpressod.Prelude.{
  ℕ, zero, suc, ◌+◌, ◌<◌, ◌≤◌, true, false, some, List, [], ◌∷◌, ◌++◌, length, ◌≡◌, refl, ◌∙◌,
  arith, Bool-cases, inl, inr, Option, none, ap, sym,
}
use openpressod.Executor.{Executor, make, stop, take, take_when, work_on, work, drain, size_mod}
use openpressod.Executor.Serial.{
  Reach, IsSerial, Reach-IsSerial, make-IsSerial, take-IsSerial, run-IsSerial, stop-IsSerial,
  all_ran,
}

-- The rounds for the shared queue: one that takes it, one for each procedure, and the last.
unfoldable pub rounds : {P : Type 0} → List P → ℕ
rounds [] = 1
rounds (p ∷ l) = length l + 3

unfoldable pub Drained : {P : Type 0} → Executor P → Executor P → Type 0
Drained e f = IsSerial f × (f.exited ≡ true) × (f.submitted ≡ e.submitted)

-- Enough rounds for what is left.
unfoldable pub Drains : Type 0 → ℕ → Type 0
Drains P n =
    (e : Executor P)
    → IsSerial e
    → e.stopping ≡ true
    → length e.m_queue + 1 < size_mod
    → e.exited ≡ false
    → length e.queue + rounds e.m_queue ≤ n
    → Drained e (drain n e)

module _ {P : Type 0} where
  drain_exited : (n : ℕ) (e : Executor P) → e.exited ≡ true → drain n e ≡ e
  unfolding drain work work_on
  drain_exited zero e x = refl
  drain_exited (suc n) e x = ground arith

  -- One round, if the worker neither waits nor has returned.
  abbrev pub round_of : Option (Executor P) → Executor P → Executor P
  round_of none e = e
  round_of (some k) e = k

  drain_waits : (n : ℕ) (e : Executor P) → work e ≡ none → drain n e ≡ e
  unfolding drain
  drain_waits zero e w = refl
  drain_waits (suc n) e w = ap (λ o. elim o [ none ↦ e | some k ↦ drain n k ]) w

  pub drain_round :
      (n : ℕ) (o : Option (Executor P)) (e : Executor P)
      → work e ≡ o
      → drain (suc n) e ≡ drain n (round_of o e)
  unfolding drain
  drain_round n none e w =
      ap (λ o. elim o [ none ↦ e | some k ↦ drain n k ]) w ∙ sym (drain_waits n e w)
  drain_round n (some k) e w = ap (λ o. elim o [ none ↦ e | some k ↦ drain n k ]) w

  take-rounds :
      (e : Executor P)
      → (take e).exited ≡ false
      → suc (length (take e).queue + 1) ≡ rounds e.m_queue
  unfolding take rounds length
  take-rounds e x = ground arith

  rounds_pos : (l : List P) → rounds l ≡ 0 → ⊥
  unfolding rounds
  rounds_pos [] h = ground arith
  rounds_pos (p ∷ l) h = ground arith

  rounds_bound : (k l : List P) → length k + rounds l ≤ length k + length l + 2
  unfolding rounds length
  rounds_bound k [] = omega arith
  rounds_bound k (p ∷ l) = omega arith

  take-Drains :
      (n : ℕ) (e : Executor P)
      → Drains P n
      → e.queue ≡ []
      → IsSerial e
      → e.stopping ≡ true
      → length e.m_queue + 1 < size_mod
      → e.exited ≡ false
      → rounds e.m_queue ≤ suc n
      → Drained e (drain n (take e))
  unfolding take Drains Drained length rounds
  take-Drains n e ih q v s b x h =
      let w = take-IsSerial e q x (λ z. ground (arith, v.size)) v in
      elim (Bool-cases (take e).exited) [
        | inl y ↦ rw (drain_exited n (take e) y) (w, y, refl)
        | inr y ↦ ih (take e) w s (ground arith) y (ground (arith, take-rounds e y))
      ]

  Drains-on :
      (l : List P) (n : ℕ) (e : Executor P)
      → Drains P n
      → e.queue ≡ l
      → IsSerial e
      → e.stopping ≡ true
      → length e.m_queue + 1 < size_mod
      → e.exited ≡ false
      → length l + rounds e.m_queue ≤ suc n
      → Drained e (drain (suc n) e)
  unfolding work work_on take_when drain length Drains Drained
  Drains-on [] n e ih q v s b x h =
      let w : work e ≡ some (take e) = ground (arith, v.size) in
      rw (w, drain) (take-Drains n e ih q v s b x (omega arith))
  Drains-on (p ∷ l) n e ih q v s b x h =
      let k = record e { queue = l; ran = e.ran ++ p ∷ [] } in
      let w : work e ≡ some k = ground arith in
      rw (w, drain) (ih k (run-IsSerial p l e q x v) s b x (omega arith))

  drains :
      (n : ℕ) (e : Executor P)
      → IsSerial e
      → e.stopping ≡ true
      → length e.m_queue + 1 < size_mod
      → e.exited ≡ false
      → length e.queue + rounds e.m_queue ≤ n
      → Drained e (drain n e)
  unfolding Drains
  drains zero e v s b x h = absurd (rounds_pos e.m_queue (omega arith))
  drains (suc n) e v s b x h = Drains-on e.queue n e (drains n) refl v s b x h

  -- The worker returns once the destructor has been called.
  pub returns :
      (e : Executor P)
      → IsSerial e
      → e.stopping ≡ true
      → e.exited ≡ false
      → length e.m_queue + 1 < size_mod
      → (drain (length e.queue + length e.m_queue + 2) e).exited ≡ true
  unfolding Drained
  returns e v s x b = (drains _ e v s b x (rounds_bound e.queue e.m_queue)).1

  -- The destructor, called after any history of callers and worker: if the procedures in the shared
  -- queue can be counted in 64 bits, the worker alone returns within as many rounds as procedures are
  -- left and two more, and then every procedure that was ever handed over has been run, in order.
  pub stop-drains :
      (e : Executor P)
      → Reach make e
      → e.stopping ≡ false
      → length e.m_queue + 1 < size_mod
      → let f = drain (length e.queue + length e.m_queue + 2) (stop e) in
        (f.exited ≡ true) × (f.ran ≡ e.submitted)
  unfolding stop Drained
  stop-drains e r s b =
      let v = stop-IsSerial e s (Reach-IsSerial r make-IsSerial) in
      let x : e.exited ≡ false = ground (arith, (Reach-IsSerial r make-IsSerial).done) in
      let d = drains _ (stop e) v refl b x (rounds_bound e.queue e.m_queue) in
      let (w, y, same) = d in let (t, q, m) = w.done y in (y, all_ran _ w q m ∙ same)
