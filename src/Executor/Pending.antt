-- ===== src/Executor/Pending.antt =====
-- What is still to be run, in its order.
use openpressod.Prelude.{
  ◌∙◌, false, List, [], ◌∷◌, ◌++◌, ◌==◌, ◌≡◌, refl, sym, ap, inl, inr, some, append_assoc,
  append_nil, arith, length, ◌+◌, ◌<◌, Bool-cases,
}
use openpressod.Executor.{Executor, execute, stop, take, take_when, work_on, work, size_mod}
use openpressod.Executor.Serial.{IsSerial, execute-IsSerial}

module _ {P : Type 0} where
  abbrev pub pending : Executor P → List P
  pending e = e.queue ++ e.m_queue

  pub pending-execute : (p : P) (e : Executor P) → pending (execute p e) ≡ pending e ++ p ∷ []
  unfolding execute
  pending-execute p e = sym (append_assoc e.queue e.m_queue (p ∷ []))

  pub pending-stop : (e : Executor P) → pending (stop e) ≡ pending e
  unfolding stop
  pending-stop e = refl

  -- Several procedures, one after another.
  unfoldable pub execute_all : List P → Executor P → Executor P
  execute_all [] e = e
  execute_all (p ∷ l) e = execute_all l (execute p e)

  pub pending-execute_all :
      (l : List P) (e : Executor P) → pending (execute_all l e) ≡ pending e ++ l
  unfolding execute_all
  pending-execute_all [] e = sym (append_nil (pending e))
  pending-execute_all (p ∷ l) e =
      pending-execute_all l (execute p e)
      ∙ ap (λ k. k ++ l) (pending-execute p e)
      ∙ append_assoc (pending e) (p ∷ []) l

  -- The destructor and the worker are left as they are.
  pub execute_all_flags :
      (l : List P) (e : Executor P)
      → ((execute_all l e).exited ≡ e.exited) × ((execute_all l e).stopping ≡ e.stopping)
  unfolding execute_all execute
  execute_all_flags [] e = (refl, refl)
  execute_all_flags (p ∷ l) e = execute_all_flags l (execute p e)

  pub execute_all-IsSerial :
      (l : List P) (e : Executor P) → e.exited ≡ false → IsSerial e → IsSerial (execute_all l e)
  unfolding execute_all execute
  execute_all-IsSerial [] e x v = v
  execute_all-IsSerial (p ∷ l) e x v =
      execute_all-IsSerial l (execute p e) x (execute-IsSerial p e x v)

  -- Taking what is queued leaves the order, and the destructor's call.
  is_taken : (e k : Executor P) → e.queue ≡ [] → work e ≡ some k → k ≡ take e
  unfolding work work_on take_when
  is_taken e k q w = elim (Bool-cases e.exited) [
    | inl x ↦ absurd (ground arith)
    | inr x ↦ elim (Bool-cases (e.m_queue_size == 0)) [
      | inl z ↦ absurd (ground arith)
      | inr z ↦ ground arith
    ]
  ]

  pub take-pending :
      (e k : Executor P)
      → e.queue ≡ []
      → work e ≡ some k
      → (pending k ≡ pending e) × (k.stopping ≡ e.stopping)
  unfolding take
  take-pending e k q w =
      let taken = is_taken e k q w in
      (
        ap pending taken ∙ append_nil e.m_queue ∙ ap (λ l. l ++ e.m_queue) (sym q),
        ap (λ m. m.stopping) taken,
      )

  -- The first procedure leaves the list when it is run.
  pub run-pending :
      (p : P) (l : List P) (e k : Executor P)
      → e.queue ≡ p ∷ l
      → work e ≡ some k
      → (pending e ≡ p ∷ pending k) × (k.exited ≡ false) × (k.stopping ≡ e.stopping)
  unfolding work work_on
  run-pending p l e k q w = elim (Bool-cases e.exited) [
    | inl x ↦ absurd (ground arith)
    | inr x ↦
        let ran : k ≡ record e { queue = l; ran = e.ran ++ p ∷ [] } = ground arith in
        (
          ap (λ m. m ++ e.m_queue) q ∙ ap (λ m. p ∷ pending m) (sym ran),
          ap (λ m. m.exited) ran ∙ x,
          ap (λ m. m.stopping) ran,
        )
  ]

  -- A worker that has something to do goes on, while the shared queue can be counted in 64 bits.
  pub wakes :
      (p : P) (l : List P) (e : Executor P)
      → IsSerial e
      → e.exited ≡ false
      → e.m_queue ≡ p ∷ l
      → length e.m_queue + 1 < size_mod
      → e.queue ≡ []
      → (k : Executor P) × (work e ≡ some k) × (k.queue ≡ p ∷ l)
  unfolding work work_on take_when take length
  wakes p l e v x m b q = (take e, ground (arith, v.size, m), m)

  pub goes_on :
      (p : P) (l : List P) (e : Executor P)
      → e.exited ≡ false
      → e.queue ≡ p ∷ l
      → (k : Executor P) × (work e ≡ some k)
  unfolding work work_on
  goes_on p l e x q = (record e { queue = l; ran = e.ran ++ p ∷ [] }, ground arith)
