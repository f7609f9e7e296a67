-- ===== src/Timer/Wrap.antt =====
-- What the timer shows when its 31-bit clock passes zero between start and stop: `stop` does not
-- apply VALUE_MASK to the difference, so bit 31 stays set.
use openpressod.Prelude.{ℕ, ◌+◌, ◌-◌, ◌/◌, ◌≤◌, ◌<◌, ◌≡◌, true, arith}
use openpressod.Timer.{BrewTimer, start, stop, elapsed_time, running_flag, is_running}

module _ (t : BrewTimer) (from until : ℕ) (ordered : from ≤ until)
    (short : until < from + running_flag)
    (wraps : until / running_flag ≡ from / running_flag + 1) where
  -- When a multiple of 2 ^ 31 milliseconds lies between start and stop, less than 2 ^ 31 ms apart,
  -- the timer still runs after `stop`, and the time that it shows at the stop is 2 ^ 31 ms too long.
  pub stop_after_wrap :
      (is_running (stop until (start from t)) ≡ true)
      × (elapsed_time until (start from t) ≡ running_flag + (until - from))
  unfolding start stop elapsed_time
  stop_after_wrap = ground arith
