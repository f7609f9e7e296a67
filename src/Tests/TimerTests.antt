-- ===== src/Tests/TimerTests.antt =====
-- The brew timer.
use openpressod.Prelude.{◌+◌, ◌≡◌, true, [], ◌∷◌, arith}
use openpressod.Timer.{initial, start, stop, elapsed_time, running_flag, is_running}
use openpressod.Timer.Stopwatch.{starts, stops, resets, stopped}
use openpressod.Timer.Stopwatch
use openpressod.Timer.Refinement.{run, run-refines-Stopwatch}
use openpressod.Timer.Wrap.{stop_after_wrap}

run-refines-Stopwatch_example :
    elapsed_time 9000 (run ((1000, starts) ∷ (4000, stops) ∷ (5000, starts) ∷ []) initial)
    ≡ Stopwatch.elapsed_time 9000
        (Stopwatch.run ((1000, starts) ∷ (4000, stops) ∷ (5000, starts) ∷ []) (stopped 0))
run-refines-Stopwatch_example =
    run-refines-Stopwatch 0 ((1000, starts) ∷ (4000, stops) ∷ (5000, starts) ∷ []) 500 9000
      (omega arith) (omega arith) (omega arith)

-- A brew of 30 s across the end of the 31-bit clock, 24.8 days after boot.
stop_after_wrap_example :
    (is_running (stop 2147493648 (start 2147463648 (record { state = 0 }))) ≡ true)
    × (elapsed_time 2147493648 (start 2147463648 (record { state = 0 })) ≡ running_flag + 30000)
stop_after_wrap_example =
    stop_after_wrap (record { state = 0 }) 2147463648 2147493648 (omega arith) (omega arith)
      (omega arith)
