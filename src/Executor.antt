-- ===== src/Executor.antt =====
-- src/async_events_dispatcher/procedures_serial_executor.hpp: the queue under its lock, the worker
-- thread and the destructor. A procedure is any value; `ran` records the ones that the worker has
-- invoked, and `submitted` the ones that were handed over.
pub mod Serial
pub mod Shutdown
pub mod Pending
use openpressod.Prelude.{
  ℕ, zero, suc, ◌+◌, ◌-◌, ◌%◌, ◌^◌, Bool, true, false, Option, none, some, List, [], ◌∷◌, ◌++◌,
  length, ◌==◌,
}

abbrev pub size_mod : ℕ
size_mod = 2 ^ 64

-- `queue` is the local list of `worker`; `exited` is set when `worker` has returned, and `stopping`
-- when the destructor has run up to the join.
pub record Executor (P : Type 0) : Type 0 where
  pub m_queue : List P
  pub m_queue_size : ℕ
  pub queue : List P
  pub ran : List P
  pub submitted : List P
  pub stopping : Bool
  pub exited : Bool

module _ {P : Type 0} where
  -- The constructor.
  unfoldable pub make : Executor P
  make = record {
    m_queue = [];
    m_queue_size = 0;
    queue = [];
    ran = [];
    submitted = [];
    stopping = false;
    exited = false;
  }

  -- What `executeWithFuture`, `executeWithCallback` and `executeDiscardResult` do under the lock.
  unfoldable pub execute : P → Executor P → Executor P
  execute p e = record e {
    m_queue = e.m_queue ++ p ∷ [];
    m_queue_size = (e.m_queue_size + 1) % size_mod;
    submitted = e.submitted ++ p ∷ [];
  }

  -- The destructor, before the thread is joined.
  unfoldable pub stop : Executor P → Executor P
  stop e = record e { m_queue_size = (e.m_queue_size + 1) % size_mod; stopping = true }

  -- The block under the worker's lock, with the test after it.
  unfoldable pub take : Executor P → Executor P
  take e = record e {
    queue = e.m_queue;
    m_queue = [];
    m_queue_size = (e.m_queue_size + size_mod - length e.m_queue % size_mod) % size_mod;
    exited = elim e.m_queue [ [] ↦ true | p ∷ l ↦ false ];
  }

  -- `wait(0)` holds the worker while the size is 0.
  unfoldable pub take_when : Bool → Executor P → Option (Executor P)
  take_when true e = none
  take_when false e = some (take e)

  -- What the worker does next, in one round of its loop: nothing if it has returned or waits.
  unfoldable pub work_on : List P → Bool → Executor P → Option (Executor P)
  work_on l true e = none
  work_on [] false e = take_when (e.m_queue_size == 0) e
  work_on (p ∷ l) false e = some (record e { queue = l; ran = e.ran ++ p ∷ [] })

  unfoldable pub work : Executor P → Option (Executor P)
  work e = work_on e.queue e.exited e

  -- The worker alone, until it waits or has returned.
  unfoldable pub drain : ℕ → Executor P → Executor P
  drain zero e = e
  drain (suc n) e = elim (work e) [ none ↦ e | some k ↦ drain n k ]
