-- ===== src/Executor/Serial.antt =====
-- The executor under any interleaving of its callers with the worker.
use openpressod.Prelude.{
  ℕ, ◌+◌, ◌%◌, ◌<◌, Bool, true, false, none, some, List, [], ◌∷◌, ◌++◌, length, length-snoc,
  length_zero, append_assoc, append_nil, ◌≡◌, ◌≢◌, refl, arith, sym, ap, ◌∙◌, inl, inr, Bool-cases,
  ◌==◌,
}
use openpressod.Executor.{Executor, make, execute, stop, take, take_when, work_on, work, size_mod}

pub data Step {P : Type 0} (e : Executor P) : Executor P → Type 0 where
  submit : (p : P) → e.stopping ≡ false → Step e (execute p e)
  destroy : e.stopping ≡ false → Step e (stop e)
  worker : (k : Executor P) → work e ≡ some k → Step e k

pub data Reach {P : Type 0} (e : Executor P) : Executor P → Type 0 where
  here : Reach e e
  next : {f g : Executor P} → Reach e f → Step f g → Reach e g

abbrev bit : Bool → ℕ
bit true = 1
bit false = 0

-- Each procedure is in one place, in order; the size counts the shared queue and the destructor; the
-- worker returns only with nothing left.
pub record IsSerial {P : Type 0} (e : Executor P) : Type 0 where
  pub order : e.ran ++ e.queue ++ e.m_queue ≡ e.submitted
  pub size : e.m_queue_size ≡ (length e.m_queue + bit e.stopping) % size_mod
  pub done : e.exited ≡ true → (e.stopping ≡ true) × (e.queue ≡ []) × (e.m_queue ≡ [])

module _ {P : Type 0} where
  pub make-IsSerial : IsSerial (make {P = P})
  unfolding make length
  make-IsSerial = record { order = refl; size = refl; done = λ h. ground arith }

  pub execute-IsSerial :
      (p : P) (e : Executor P) → e.exited ≡ false → IsSerial e → IsSerial (execute p e)
  unfolding execute
  execute-IsSerial p e s v = record {
    order =
        sym (append_assoc (e.ran ++ e.queue) e.m_queue (p ∷ [])) ∙ ap (λ l. l ++ p ∷ []) v.order;
    size = ground (arith, length-snoc e.m_queue p, v.size);
    done = λ h. absurd (ground arith);
  }

  -- Nobody has returned while the destructor has not been called.
  pub running : (e : Executor P) → e.stopping ≡ false → IsSerial e → e.exited ≡ false
  running e s v = elim (Bool-cases e.exited) [
    | inl x ↦ absurd (ground (arith, v.done x))
    | inr x ↦ x
  ]

  pub stop-IsSerial : (e : Executor P) → e.stopping ≡ false → IsSerial e → IsSerial (stop e)
  unfolding stop
  stop-IsSerial e s v = record {
    order = v.order;
    size = ground (arith, v.size);
    done = λ h. ground (arith, v.done h);
  }

  pub take-IsSerial :
      (e : Executor P)
      → e.queue ≡ []
      → e.exited ≡ false
      → (e.m_queue_size ≢ 0)
      → IsSerial e
      → IsSerial (take e)
  unfolding take length
  take-IsSerial e q x nz v = record {
    order =
        append_nil (e.ran ++ e.m_queue)
        ∙ ap (λ l. l ++ e.m_queue) (sym (append_nil e.ran) ∙ ap (λ k. e.ran ++ k) (sym q))
        ∙ v.order;
    size = ground (arith, v.size);
    done = λ h. elim (Bool-cases e.stopping) [
      | inl t ↦ (t, ground arith, refl)
      | inr f ↦ absurd (ground arith)
    ];
  }

  pub run-IsSerial :
      (p : P) (l : List P) (e : Executor P)
      → e.queue ≡ p ∷ l
      → e.exited ≡ false
      → IsSerial e
      → IsSerial (record e { queue = l; ran = e.ran ++ p ∷ [] })
  run-IsSerial p l e q x v = record {
    order =
        ap (λ k. k ++ e.m_queue) (append_assoc e.ran (p ∷ []) l ∙ ap (λ k. e.ran ++ k) (sym q))
        ∙ v.order;
    size = v.size;
    done = λ h. ground arith;
  }

  pub worker-IsSerial :
      (l : List P) (e k : Executor P) → e.queue ≡ l → work e ≡ some k → IsSerial e → IsSerial k
  unfolding work work_on take_when
  worker-IsSerial [] e k q w v = elim (Bool-cases e.exited) [
    | inl x ↦ absurd (ground arith)
    | inr x ↦ elim (Bool-cases (e.m_queue_size == 0)) [
      | inl z ↦ absurd (ground arith)
      | inr z ↦
          let ek : k ≡ take e = ground arith in rw ek (take-IsSerial e q x (λ h. ground arith) v)
    ]
  ]
  worker-IsSerial (p ∷ l) e k q w v = elim (Bool-cases e.exited) [
    | inl x ↦ absurd (ground arith)
    | inr x ↦
        let ek : k ≡ record e { queue = l; ran = e.ran ++ p ∷ [] } = ground arith in
        rw ek (run-IsSerial p l e q x v)
  ]

  Step-IsSerial : {e f : Executor P} → Step e f → IsSerial e → IsSerial f
  Step-IsSerial {e} (submit p s) v = execute-IsSerial p e (running e s v) v
  Step-IsSerial {e} (destroy s) v = stop-IsSerial e s v
  Step-IsSerial {e} (worker k w) v = worker-IsSerial e.queue e k refl w v

  pub Reach-IsSerial : {e f : Executor P} → Reach e f → IsSerial e → IsSerial f
  Reach-IsSerial here v = v
  Reach-IsSerial (next r s) v = Step-IsSerial s (Reach-IsSerial r v)

  pub all_ran : (e : Executor P) → IsSerial e → e.queue ≡ [] → e.m_queue ≡ [] → e.ran ≡ e.submitted
  all_ran e v q m =
      sym (append_nil e.ran)
      ∙ sym (append_nil (e.ran ++ []))
      ∙ ap (λ l. e.ran ++ l ++ []) (sym q)
      ∙ ap (λ l. e.ran ++ e.queue ++ l) (sym m)
      ∙ v.order

  blocked :
      (l : List P) (e : Executor P)
      → e.queue ≡ l
      → e.exited ≡ false
      → work e ≡ none
      → (e.queue ≡ []) × (e.m_queue_size ≡ 0)
  unfolding work work_on take_when
  blocked [] e q x w = elim (Bool-cases (e.m_queue_size == 0)) [
    | inl z ↦ (q, ground arith)
    | inr z ↦ absurd (ground arith)
  ]
  blocked (p ∷ l) e q x w = absurd (ground arith)

  -- Whatever the callers and the worker do in whatever order: the procedures are run in the order in
  -- which they were handed over, each at most once; and when the worker has returned, the destructor
  -- has been called and every procedure has been run.
  pub run_in_order :
      (e : Executor P)
      → Reach make e
      → (e.ran ++ e.queue ++ e.m_queue ≡ e.submitted)
        × (e.exited ≡ true → (e.stopping ≡ true) × (e.ran ≡ e.submitted))
  run_in_order e r =
      let v = Reach-IsSerial r make-IsSerial in
      (v.order, λ h. let (t, q, m) = v.done h in (t, all_ran e v q m))

  -- The worker waits only when there is nothing to do: as long as the procedures in the shared queue
  -- can be counted in 64 bits, a worker that has not returned and cannot go on has no procedure left,
  -- and the destructor has not been called.
  pub waits_only_when_empty :
      (e : Executor P)
      → Reach make e
      → length e.m_queue + 1 < size_mod
      → e.exited ≡ false
      → work e ≡ none
      → (e.ran ≡ e.submitted) × (e.stopping ≡ false)
  waits_only_when_empty e r b x w =
      let v = Reach-IsSerial r make-IsSerial in
      let (q, z) = blocked e.queue e refl x w in
      let m = length_zero e.m_queue (ground (arith, v.size)) in
      (all_ran e v q m, ground (arith, v.size))
