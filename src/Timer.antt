-- ===== src/Timer.antt =====
-- src/state_manager/brew_timer.hpp and brew_timer.cpp. The whole state is one 32-bit word: bit 31
-- says that the timer runs, the other bits hold the start time or the elapsed time in milliseconds.
-- The steady clock is an argument: milliseconds since its epoch, as an unbounded number.
pub mod Stopwatch
pub mod Refinement
pub mod Running
pub mod Wrap
use openpressod.Prelude.{ℕ, ◌+◌, ◌-◌, ◌/◌, ◌%◌, ◌^◌, ◌==◌, if◌then◌else◌, not, Bool}

abbrev pub word : ℕ
word = 2 ^ 32

abbrev pub running_flag : ℕ
running_flag = 2 ^ 31

-- `x & VALUE_MASK` clears bit 31 of a 32-bit word.
abbrev pub value_mask : ℕ → ℕ
value_mask x = x % running_flag

pub record BrewTimer : Type 0 where
  pub state : ℕ

pub initial : BrewTimer
initial = record { state = 0 }

-- `static_cast<uint32_t>(ms) & VALUE_MASK`.
pub now : ℕ → ℕ
now ms = value_mask (ms % word)

-- `(state & RUNNING_FLAG) != 0U`.
abbrev pub is_running : BrewTimer → Bool
is_running t = not (t.state / running_flag % 2 == 0)

-- `RUNNING_FLAG | now()`: bit 31 of `now()` is clear, so `|` adds it.
pub start : ℕ → BrewTimer → BrewTimer
unfolding now
start ms t = record t { state = running_flag + now ms }

-- The subtraction is on `uint32_t`, and wraps.
pub stop : ℕ → BrewTimer → BrewTimer
unfolding now
stop ms t =
    if not (is_running t)
    then t
    else record t { state = (now ms + word - value_mask t.state) % word }

pub reset : BrewTimer → BrewTimer
reset t = record t { state = 0 }

-- In milliseconds.
pub elapsed_time : ℕ → BrewTimer → ℕ
unfolding now
elapsed_time ms t =
    if not (is_running t) then t.state else (now ms + word - value_mask t.state) % word
