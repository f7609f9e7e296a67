-- ===== src/Timer/Stopwatch.antt =====
-- What a brew timer is meant to be, with no word size: the specification of Timer.
use openpressod.Prelude.{ℕ, ◌-◌, ◌≤◌, List, [], ◌∷◌}

pub data Stopwatch : Type 0 where
  stopped : ℕ → Stopwatch
  running : ℕ → Stopwatch

pub data Call : Type 0 where
  starts stops resets : Call

abbrev pub stop : ℕ → Stopwatch → Stopwatch
stop ms (stopped e) = stopped e
stop ms (running since) = stopped (ms - since)

abbrev pub elapsed_time : ℕ → Stopwatch → ℕ
elapsed_time ms (stopped e) = e
elapsed_time ms (running since) = ms - since

abbrev pub call : Call → ℕ → Stopwatch → Stopwatch
call starts ms s = running ms
call stops ms s = stop ms s
call resets ms s = stopped 0

abbrev pub run : List (ℕ × Call) → Stopwatch → Stopwatch
run [] s = s
run ((ms, c) ∷ cs) s = run cs (call c ms s)

-- The calls come in the order of their times, between the two given times.
abbrev pub Ordered : ℕ → List (ℕ × Call) → ℕ → Type 0
Ordered first [] last = first ≤ last
Ordered first ((ms, c) ∷ cs) last = (first ≤ ms) × Ordered ms cs last
