-- ===== src/Profiles/Apply.antt =====
-- Handing a profile to the state manager: what it needs, and what it leaves behind when it throws.
use openpressod.Prelude.{true, false, Option, List, ◌≡◌, ◌↔◌, inl, inr, refl, arith}
use openpressod.Messages.{StopCondition, StepTarget, StepCondition}
use openpressod.Core.{Core, Readings}
use openpressod.Results.{err, done, steps_while_brewing, Result-cases, and_then}
use openpressod.Machine.Kept.{IsKept, IsSafe-IsKept}
use openpressod.Machine.Safety.{IsSafe}
use openpressod.Machine.{
  StateManager, set_brew_temperature, set_brew_steps, set_auto_stop_condition,
}
use openpressod.Machine.Modes.{
  SameModes, set_brew_temperature_modes, set_brew_steps_modes, set_auto_stop_condition_modes,
}
use openpressod.Machine.Behaviour.{set_brew_temperature-keeps}
use openpressod.Profiles.Valid.{
  IsValidProfile, transform_steps-total, transform_steps-AllValid, stop_rule-total, stop_rule-Known,
}
use openpressod.Profiles.Converts.{StepsAre, StopIs, transform_steps-StepsAre, stop_rule-StopIs}
use openpressod.Profiles.{
  BrewProfileManager, apply_brew_profile, transform_steps, stop_rule, set_stop_condition,
}

module _ {core : Core} where
  open core use {is_brewing}

  -- On a machine that does not brew, a profile whose steps and stop condition are all known is
  -- applied without an exception: the profiler gets one step for each of the profile's, in their
  -- order, each with the pressure or the flow of the step and its condition on the total time, the
  -- weight or the step's time, or none; then the stop condition, on the total time or the weight, or
  -- none. The target temperature is the profile's, and power and steam mode stay.
  pub apply-IsValidProfile :
      (r : Readings) (m : BrewProfileManager) (s : StateManager core)
      → is_brewing s.brew_profiler ≡ false
      → IsValidProfile m.current_profile
      → let (result, n) = apply_brew_profile r m s in
        (result ≡ done)
        × (l : List (StepTarget × StepCondition)) × (c : StepCondition) × StepsAre core
            m.current_profile.steps l
        × StopIs core m.current_profile.stop_condition c
        × (n.brew_profiler ≡ core.set_auto_stop_condition c (core.set_steps l s.brew_profiler))
        × (core.target_temperature n.brew_temperature_controller ≡ m.current_profile.temperature)
        × (n.power ≡ s.power)
        × (n.steam ≡ s.steam)
  unfolding apply_brew_profile set_stop_condition set_brew_steps set_auto_stop_condition
  apply-IsValidProfile r m s idle v =
      let (l, el) = transform_steps-total core m.current_profile.steps v.steps in
      let (c, ec) = stop_rule-total core m.current_profile.stop_condition v.stop in
      let keeps = set_brew_temperature-keeps m.current_profile.temperature r s in
      let idle' = core.is_brewing-set_steps l s.brew_profiler in
      let steps = transform_steps-StepsAre core m.current_profile.steps l el in
      let rule = stop_rule-StopIs core m.current_profile.stop_condition c ec in
      (ground arith, l, c, steps, rule, ground arith, ground arith, ground arith, ground arith)

  -- While a brew runs every profile is refused, but the new target temperature has been set.
  pub apply_while_brewing :
      (r : Readings) (m : BrewProfileManager) (s : StateManager core)
      → is_brewing s.brew_profiler ≡ true
      → let (result, n) = apply_brew_profile r m s in
        (result ≡ err steps_while_brewing)
        × (n.brew_profiler ≡ s.brew_profiler)
        × (core.target_temperature n.brew_temperature_controller ≡ m.current_profile.temperature)
  unfolding apply_brew_profile set_brew_steps
  apply_while_brewing r m s busy =
      let keeps = set_brew_temperature-keeps m.current_profile.temperature r s in
      (ground arith, ground arith, ground arith)

  apply_done-needs :
      (r : Readings) (m : BrewProfileManager) (s : StateManager core)
      → (apply_brew_profile r m s).0 ≡ done
      → (is_brewing s.brew_profiler ≡ false) × IsValidProfile m.current_profile
  unfolding apply_brew_profile set_brew_steps set_stop_condition
  apply_done-needs r m s h =
      let keeps = set_brew_temperature-keeps m.current_profile.temperature r s in
      let idle : is_brewing s.brew_profiler ≡ false = ground (arith, apply_while_brewing r m s) in
      elim (Result-cases (transform_steps core m.current_profile.steps)) [
        | inr (e, ee) ↦ absurd (ground arith)
        | inl (l, el) ↦ elim (Result-cases (stop_rule core m.current_profile.stop_condition)) [
          | inr (e, ee) ↦ absurd (ground (arith, core.is_brewing-set_steps l s.brew_profiler))
          | inl (c, ec) ↦ (
            idle,
            record {
              steps = transform_steps-AllValid core m.current_profile.steps l el;
              stop = stop_rule-Known core m.current_profile.stop_condition c ec;
            },
          )
        ]
      ]

  -- Applying a profile throws nothing if and only if no brew runs and every step and the stop
  -- condition of the profile are known.
  pub apply_done_iff :
      (r : Readings) (m : BrewProfileManager) (s : StateManager core)
      → ((apply_brew_profile r m s).0 ≡ done)
        ↔ ((is_brewing s.brew_profiler ≡ false) × IsValidProfile m.current_profile)
  apply_done_iff r m s = (apply_done-needs r m s, λ h. (apply-IsValidProfile r m s h.0 h.1).0)

  set_stop_condition-kept :
      {P : StateManager core → Type 0} (k : IsKept P) (o : Option StopCondition)
      (s : StateManager core)
      → P s
      → P (set_stop_condition o s).1
  unfolding set_stop_condition
  set_stop_condition-kept k o s v = elim (Result-cases (stop_rule core o)) [
    | inl (c, e) ↦ rw (e, set_stop_condition) (k.stop_condition c s v)
    | inr (x, e) ↦ rw (e, set_stop_condition) v
  ]

  -- Applying a profile keeps what the methods of the state manager keep, also when it throws.
  pub apply_brew_profile-kept :
      {P : StateManager core → Type 0} (k : IsKept P) (r : Readings) (m : BrewProfileManager)
      (s : StateManager core)
      → P s
      → P (apply_brew_profile r m s).1
  unfolding apply_brew_profile
  apply_brew_profile-kept k r m s v =
      let p = m.current_profile in
      let l = transform_steps core p.steps in
      let n = set_brew_temperature p.temperature r s in
      let safe = k.brew_temperature p.temperature r s v in
      let next = k.steps l n safe in
      elim (Result-cases (set_brew_steps l n).0) [
        | inl (a, e) ↦ rw (e, and_then) (set_stop_condition-kept k p.stop_condition _ next)
        | inr (x, e) ↦ rw (e, and_then) next
      ]

  pub apply_brew_profile-IsSafe :
      (r : Readings) (m : BrewProfileManager) (s : StateManager core)
      → IsSafe s
      → IsSafe (apply_brew_profile r m s).1
  apply_brew_profile-IsSafe r m s v = apply_brew_profile-kept IsSafe-IsKept r m s v

  set_stop_condition_modes :
      (o : Option StopCondition) (s : StateManager core) → SameModes s (set_stop_condition o s).1
  unfolding set_stop_condition
  set_stop_condition_modes o s = elim (Result-cases (stop_rule core o)) [
    | inl (c, e) ↦ rw (e, set_stop_condition) (set_auto_stop_condition_modes c s)
    | inr (x, e) ↦ rw (e, set_stop_condition) (refl, refl, refl)
  ]

  SameModes-trans : (a b c : StateManager core) → SameModes a b → SameModes b c → SameModes a c
  SameModes-trans a b c p q = ground arith

  -- Applying a profile changes no power, steam mode or brew state.
  pub apply_brew_profile_modes :
      (r : Readings) (m : BrewProfileManager) (s : StateManager core)
      → SameModes s (apply_brew_profile r m s).1
  unfolding apply_brew_profile
  apply_brew_profile_modes r m s =
      let p = m.current_profile in
      let l = transform_steps core p.steps in
      let n = set_brew_temperature p.temperature r s in
      let k = (set_brew_steps l n).1 in
      let first =
        SameModes-trans s n k (set_brew_temperature_modes p.temperature r s)
          (set_brew_steps_modes l n) in
      elim (Result-cases (set_brew_steps l n).0) [
        | inl (a, e) ↦
            rw (e, and_then)
              (SameModes-trans s k (set_stop_condition p.stop_condition k).1 first
                (set_stop_condition_modes p.stop_condition k))
        | inr (x, e) ↦ rw (e, and_then) first
      ]
