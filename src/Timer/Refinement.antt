-- ===== src/Timer/Refinement.antt =====
-- The timer implements the stopwatch as long as all times lie between two neighbouring multiples of
-- 2 ^ 31 milliseconds.
use openpressod.Prelude.{ℕ, ◌+◌, ◌-◌, ◌*◌, ◌≤◌, ◌<◌, ◌≡◌, List, [], ◌∷◌, arith}
use openpressod.Timer.Stopwatch.{Stopwatch, stopped, running, Call, starts, stops, resets, Ordered}
use openpressod.Timer.Stopwatch
use openpressod.Timer.{BrewTimer, initial, start, stop, reset, elapsed_time, running_flag}

unfoldable pub call : Call → ℕ → BrewTimer → BrewTimer
call starts ms t = start ms t
call stops ms t = stop ms t
call resets ms t = reset t

unfoldable pub run : List (ℕ × Call) → BrewTimer → BrewTimer
run [] t = t
run ((ms, c) ∷ cs) t = run cs (call c ms t)

-- `last` is the time of the last call, and `base` the start of the period of 2 ^ 31 ms.
abbrev pub Represents : ℕ → ℕ → BrewTimer → Stopwatch → Type 0
Represents base last t (stopped e) = (t.state ≡ e) × (e < running_flag)
Represents base last t (running since) =
    (t.state ≡ running_flag + (since - base)) × (base ≤ since) × (since ≤ last)

module _ (k : ℕ) where
  call-Represents :
      (c : Call) (last ms : ℕ) (t : BrewTimer) (s : Stopwatch)
      → Represents (k * running_flag) last t s
      → last ≤ ms
      → k * running_flag ≤ ms
      → ms < k * running_flag + running_flag
      → Represents (k * running_flag) ms (call c ms t) (Stopwatch.call c ms s)
  unfolding call start stop reset
  call-Represents starts last ms t (stopped e) r le lo hi = omega arith
  call-Represents starts last ms t (running e) r le lo hi = omega arith
  call-Represents stops last ms t (stopped e) r le lo hi = ground arith
  call-Represents stops last ms t (running since) r le lo hi = ground arith
  call-Represents resets last ms t (stopped e) r le lo hi = omega arith
  call-Represents resets last ms t (running e) r le lo hi = omega arith

  elapsed-Represents :
      (last ms : ℕ) (t : BrewTimer) (s : Stopwatch)
      → Represents (k * running_flag) last t s
      → last ≤ ms
      → k * running_flag ≤ ms
      → ms < k * running_flag + running_flag
      → elapsed_time ms t ≡ Stopwatch.elapsed_time ms s
  unfolding elapsed_time
  elapsed-Represents last ms t (stopped e) r le lo hi = ground arith
  elapsed-Represents last ms t (running since) r le lo hi = ground arith

  Ordered-le : (first : ℕ) (cs : List (ℕ × Call)) (last : ℕ) → Ordered first cs last → first ≤ last
  Ordered-le first [] last o = o
  Ordered-le first ((ms, c) ∷ cs) last o = omega (arith, Ordered-le ms cs last o.1)

  run-elapsed :
      (cs : List (ℕ × Call)) (first last : ℕ) (t : BrewTimer) (s : Stopwatch)
      → Represents (k * running_flag) first t s
      → k * running_flag ≤ first
      → Ordered first cs last
      → last < k * running_flag + running_flag
      → elapsed_time last (run cs t) ≡ Stopwatch.elapsed_time last (Stopwatch.run cs s)
  unfolding run
  run-elapsed [] first last t s r lo o hi = elapsed-Represents first last t s r o (omega arith) hi
  run-elapsed ((ms, c) ∷ cs) first last t s r lo o hi =
      run-elapsed cs ms last (call c ms t) (Stopwatch.call c ms s)
        (call-Represents c first ms t s r o.0 (omega arith)
          (omega (arith, Ordered-le ms cs last o.1)))
        (omega arith) o.1 hi

-- From its initial state, after any calls of `start`, `stop` and `reset` in the order of their
-- times, all between two neighbouring multiples of 2 ^ 31 milliseconds, the timer shows what the
-- stopwatch shows.
pub run-refines-Stopwatch :
    (k : ℕ) (cs : List (ℕ × Call)) (first last : ℕ)
    → k * running_flag ≤ first
    → Ordered first cs last
    → last < k * running_flag + running_flag
    → elapsed_time last (run cs initial)
      ≡ Stopwatch.elapsed_time last (Stopwatch.run cs (stopped 0))
unfolding initial
run-refines-Stopwatch k cs first last lo o hi =
    run-elapsed k cs first last initial (stopped 0) (omega arith) lo o hi
