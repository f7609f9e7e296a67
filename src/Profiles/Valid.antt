-- ===== src/Profiles/Valid.antt =====
-- Which profiles the daemon can hand to the library: the values of the open enums that it knows.
use openpressod.Prelude.{Option, none, some, List, [], ◌∷◌, ◌≡◌, refl, arith}
use openpressod.Messages.{
  Float, BrewProfile, BrewStep, TargetType, AdvanceType, AdvanceCondition, StopCondition, StopType,
  StepTarget, StepCondition,
}
use openpressod.Core.{Core}
use openpressod.Results.{ok, >>=-returns}
use openpressod.Profiles.{
  transform_steps, get_step_target, get_step_condition, target_of, condition_of, stop_rule,
  stop_rule_of,
}

abbrev pub KnownTarget : TargetType → Type 0
KnownTarget (TargetType.unrecognized n) = ⊥
KnownTarget _ = Unit

abbrev pub KnownAdvance : AdvanceType → Type 0
KnownAdvance (AdvanceType.unrecognized n) = ⊥
KnownAdvance _ = Unit

abbrev pub KnownStop : StopType → Type 0
KnownStop (StopType.unrecognized n) = ⊥
KnownStop _ = Unit

abbrev pub KnownCondition : Option AdvanceCondition → Type 0
KnownCondition none = Unit
KnownCondition (some c) = KnownAdvance c.kind

-- A step whose target and advance condition the daemon knows.
abbrev pub IsValidStep : BrewStep → Type 0
IsValidStep s = KnownTarget s.target_type × KnownCondition s.advance_condition

abbrev pub AllValid : List BrewStep → Type 0
AllValid [] = Unit
AllValid (s ∷ l) = IsValidStep s × AllValid l

abbrev pub KnownRule : Option StopCondition → Type 0
KnownRule none = Unit
KnownRule (some c) = KnownStop c.kind

pub record IsValidProfile (p : BrewProfile) : Type 0 where
  pub steps : AllValid p.steps
  pub stop : KnownRule p.stop_condition

module _ (core : Core) where
  target_of-total :
      (k : TargetType) (v : Float) → KnownTarget k → (t : StepTarget) × (target_of core k v ≡ ok t)
  unfolding target_of
  target_of-total TargetType.pressure v h = (_, refl)
  target_of-total TargetType.flow_rate v h = (_, refl)
  target_of-total (TargetType.unrecognized n) v h = absurd h

  target_of-Known :
      (k : TargetType) (v : Float) (t : StepTarget) → target_of core k v ≡ ok t → KnownTarget k
  unfolding target_of
  target_of-Known TargetType.pressure v t e = tt
  target_of-Known TargetType.flow_rate v t e = tt
  target_of-Known (TargetType.unrecognized n) v t e = cc

  condition_of-total :
      (k : AdvanceType) (v : Float)
      → KnownAdvance k
      → (c : StepCondition) × (condition_of core k v ≡ ok c)
  unfolding condition_of
  condition_of-total AdvanceType.total_time v h = (_, refl)
  condition_of-total AdvanceType.total_weight v h = (_, refl)
  condition_of-total AdvanceType.step_time v h = (_, refl)
  condition_of-total (AdvanceType.unrecognized n) v h = absurd h

  condition_of-Known :
      (k : AdvanceType) (v : Float) (c : StepCondition)
      → condition_of core k v ≡ ok c
      → KnownAdvance k
  unfolding condition_of
  condition_of-Known AdvanceType.total_time v c e = tt
  condition_of-Known AdvanceType.total_weight v c e = tt
  condition_of-Known AdvanceType.step_time v c e = tt
  condition_of-Known (AdvanceType.unrecognized n) v c e = cc

  step_condition-total :
      (s : BrewStep) (o : Option AdvanceCondition)
      → s.advance_condition ≡ o
      → KnownCondition o
      → (c : StepCondition) × (get_step_condition core s ≡ ok c)
  unfolding get_step_condition
  step_condition-total s none e h = (StepCondition.never, rw e)
  step_condition-total s (some a) e h =
      let (c, ec) = condition_of-total a.kind a.value h in (c, rw e ec)

  step_condition-Known :
      (s : BrewStep) (o : Option AdvanceCondition) (c : StepCondition)
      → s.advance_condition ≡ o
      → get_step_condition core s ≡ ok c
      → KnownCondition o
  unfolding get_step_condition
  step_condition-Known s none c e h = tt
  step_condition-Known s (some a) c e h = condition_of-Known a.kind a.value c (ground arith)

  step_target-total :
      (s : BrewStep)
      → KnownTarget s.target_type
      → (t : StepTarget) × (get_step_target core s ≡ ok t)
  unfolding get_step_target
  step_target-total s h = target_of-total s.target_type s.target_value h

  -- Every step of the range converts if and only if each has a known target and condition.
  pub transform_steps-total :
      (l : List BrewStep)
      → AllValid l
      → (r : List (StepTarget × StepCondition)) × (transform_steps core l ≡ ok r)
  unfolding transform_steps
  transform_steps-total [] h = ([], refl)
  transform_steps-total (s ∷ l) h =
      let (t, et) = step_target-total s h.0.0 in
      let (c, ec) = step_condition-total s s.advance_condition refl h.0.1 in
      let (r, er) = transform_steps-total l h.1 in ((t, c) ∷ r, ground arith)

  pub transform_steps-AllValid :
      (l : List BrewStep) (r : List (StepTarget × StepCondition))
      → transform_steps core l ≡ ok r
      → AllValid l
  unfolding transform_steps get_step_target
  transform_steps-AllValid [] r e = tt
  transform_steps-AllValid (s ∷ l) r e =
      let (t, e₁, et) = >>=-returns (get_step_target core s) _ _ e in
      let (c, e₂, ec) = >>=-returns (get_step_condition core s) _ _ e₁ in
      let (k, e₃, ek) = >>=-returns (transform_steps core l) _ _ e₂ in
      (
        (
          target_of-Known s.target_type s.target_value t et,
          step_condition-Known s s.advance_condition c refl ec,
        ),
        transform_steps-AllValid l k ek,
      )

  stop_rule_of-total :
      (k : StopType) (v : Float)
      → KnownStop k
      → (c : StepCondition) × (stop_rule_of core k v ≡ ok c)
  unfolding stop_rule_of
  stop_rule_of-total StopType.total_time v h = (_, refl)
  stop_rule_of-total StopType.total_weight v h = (_, refl)
  stop_rule_of-total (StopType.unrecognized n) v h = absurd h

  stop_rule_of-Known :
      (k : StopType) (v : Float) (c : StepCondition) → stop_rule_of core k v ≡ ok c → KnownStop k
  unfolding stop_rule_of
  stop_rule_of-Known StopType.total_time v c e = tt
  stop_rule_of-Known StopType.total_weight v c e = tt
  stop_rule_of-Known (StopType.unrecognized n) v c e = cc

  pub stop_rule-total :
      (o : Option StopCondition) → KnownRule o → (c : StepCondition) × (stop_rule core o ≡ ok c)
  unfolding stop_rule
  stop_rule-total none h = (_, refl)
  stop_rule-total (some c) h = stop_rule_of-total c.kind c.value h

  pub stop_rule-Known :
      (o : Option StopCondition) (c : StepCondition) → stop_rule core o ≡ ok c → KnownRule o
  unfolding stop_rule
  stop_rule-Known none c e = tt
  stop_rule-Known (some s) c e = stop_rule_of-Known s.kind s.value c e
