-- ===== src/Timer/Running.antt =====
-- The running flag of the timer's word.
use openpressod.Prelude.{ℕ, ◌+◌, ◌-◌, ◌*◌, ◌≤◌, ◌<◌, ◌≡◌, true, false, arith}
use openpressod.Timer.{BrewTimer, start, stop, reset, elapsed_time, word, is_running, running_flag}

-- Each operation leaves a 32-bit word in the timer.
pub state-lt-word :
    (ms : ℕ) (t : BrewTimer)
    → t.state < word
    → ((start ms t).state < word) × ((stop ms t).state < word) × ((reset t).state < word)
unfolding start stop reset
state-lt-word ms t h = ground arith

pub start-is_running : (ms : ℕ) (t : BrewTimer) → is_running (start ms t) ≡ true
unfolding start
start-is_running ms t = ground arith

pub reset-is_running : (t : BrewTimer) → is_running (reset t) ≡ false
unfolding reset
reset-is_running t = ground arith

pub start-stop-elapsed :
    (k from until later : ℕ) (t : BrewTimer)
    → k * running_flag ≤ from
    → from ≤ until
    → until < k * running_flag + running_flag
    → elapsed_time later (stop until (start from t)) ≡ until - from
unfolding start stop elapsed_time
start-stop-elapsed k from until later t lo le hi = ground arith

pub reset-elapsed_time : (ms : ℕ) (t : BrewTimer) → elapsed_time ms (reset t) ≡ 0
unfolding reset elapsed_time
reset-elapsed_time ms t = ground arith
