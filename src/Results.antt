-- ===== src/Results.antt =====
-- Exceptions as values: what a call of the daemon throws, and a call that changes a state and may
-- throw. What was changed before a throw stays changed.
use Prim.Native.String.{String}
use openpressod.Prelude.{List, ◌≡◌, ◌⊎◌, inl, inr, refl, arith}

pub data Error : Type 0 where
  brew_while_off brew_in_steam_mode steam_while_brewing scale_while_brewing : Error
  steps_while_brewing stop_condition_while_brewing : Error
  no_step_target unknown_advance_condition unknown_stop_condition : Error
  cannot_open_to_read cannot_read cannot_deserialize : Error
  cannot_serialize cannot_open_to_write cannot_write : Error
  missing_key : List String → Error
  bad_optional_access negative_hysteresis_period : Error
  no_pid_state : String → Error
  promise_already_satisfied no_signal_handler : Error

-- A call that returns a value or throws.
pub data Result (Value : Type 0) : Type 0 where
  err : (thrown : Error) → Result Value
  ok : (value : Value) → Result Value

abbrev pub Done : Type 0
Done = Result (Unit {0})

abbrev pub done : Done
done = ok tt

-- What comes after a call runs only if the call has returned.
infixl 5 ◌>>=◌
abbrev pub ◌>>=◌ : {Value Next : Type 0} → Result Value → (Value → Result Next) → Result Next
call >>= after = elim call [ err thrown ↦ err thrown | ok value ↦ after value ]

-- The second call, if the first one has not thrown.
abbrev pub and_then : {S : Type 0} → Done × S → (S → Done × S) → Done × S
and_then (r, s) k = elim r [ err thrown ↦ (err thrown, s) | ok value ↦ k s ]

pub Result-cases :
    {Value : Type 0} (r : Result Value)
    → ((value : Value) × (r ≡ ok value)) ⊎ ((thrown : Error) × (r ≡ err thrown))
Result-cases (err thrown) = inr (thrown, refl)
Result-cases (ok value) = inl (value, refl)

-- A chain that has returned: what its first call returned, and that the rest has returned too.
pub >>=-returns :
    {Value Next : Type 0} (call : Result Value) (after : Value → Result Next) (last : Next)
    → (call >>= after) ≡ ok last
    → (value : Value) × (after value ≡ ok last) × (call ≡ ok value)
>>=-returns (err thrown) after last h = absurd (ground arith)
>>=-returns (ok value) after last h = (value, h, refl)
