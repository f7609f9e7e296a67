-- ===== src/Profiles/Converts.antt =====
-- What reaches the profiler for a step and for a stop condition: each value of the enums with the
-- unit that it is read in.
use openpressod.Prelude.{Option, none, some, List, [], ◌∷◌, ◌≡◌, refl, arith}
use openpressod.Messages.{
  Float, BrewStep, TargetType, AdvanceType, AdvanceCondition, StopCondition, StopType, StepTarget,
  constant_pressure, constant_flow, StepCondition, never, on_total_time, on_weight, on_step_time,
}
use openpressod.Core.{Core}
use openpressod.Results.{ok, >>=-returns}
use openpressod.Profiles.{
  transform_steps, get_step_target, get_step_condition, target_of, condition_of, stop_rule,
  stop_rule_of,
}

module _ (core : Core) where
  abbrev TargetIs : TargetType → Float → StepTarget → Type 0
  TargetIs TargetType.pressure v t = t ≡ constant_pressure (core.to_millibars v)
  TargetIs TargetType.flow_rate v t = t ≡ constant_flow (core.to_flow v)
  TargetIs (TargetType.unrecognized n) v t = ⊥

  abbrev AdvanceIs : AdvanceType → Float → StepCondition → Type 0
  AdvanceIs AdvanceType.total_time v c = c ≡ on_total_time (core.to_duration v)
  AdvanceIs AdvanceType.total_weight v c = c ≡ on_weight (core.to_weight v)
  AdvanceIs AdvanceType.step_time v c = c ≡ on_step_time (core.to_duration v)
  AdvanceIs (AdvanceType.unrecognized n) v c = ⊥

  abbrev ConditionIs : Option AdvanceCondition → StepCondition → Type 0
  ConditionIs none c = c ≡ never
  ConditionIs (some a) c = AdvanceIs a.kind a.value c

  abbrev RuleIs : StopType → Float → StepCondition → Type 0
  RuleIs StopType.total_time v c = c ≡ on_total_time (core.to_duration v)
  RuleIs StopType.total_weight v c = c ≡ on_weight (core.to_weight v)
  RuleIs (StopType.unrecognized n) v c = ⊥

  abbrev pub StopIs : Option StopCondition → StepCondition → Type 0
  StopIs none c = c ≡ never
  StopIs (some s) c = RuleIs s.kind s.value c

  -- As many steps as the profile has, in its order, each with its target and its condition.
  abbrev pub StepsAre : List BrewStep → List (StepTarget × StepCondition) → Type 0
  StepsAre [] [] = Unit
  StepsAre (s ∷ l) ((t, c) ∷ k) =
      TargetIs s.target_type s.target_value t × ConditionIs s.advance_condition c × StepsAre l k
  StepsAre _ _ = ⊥

  target_of-TargetIs :
      (k : TargetType) (v : Float) (t : StepTarget) → target_of core k v ≡ ok t → TargetIs k v t
  unfolding target_of
  target_of-TargetIs TargetType.pressure v t e = ground arith
  target_of-TargetIs TargetType.flow_rate v t e = ground arith
  target_of-TargetIs (TargetType.unrecognized n) v t e = cc

  condition_of-AdvanceIs :
      (k : AdvanceType) (v : Float) (c : StepCondition)
      → condition_of core k v ≡ ok c
      → AdvanceIs k v c
  unfolding condition_of
  condition_of-AdvanceIs AdvanceType.total_time v c e = ground arith
  condition_of-AdvanceIs AdvanceType.total_weight v c e = ground arith
  condition_of-AdvanceIs AdvanceType.step_time v c e = ground arith
  condition_of-AdvanceIs (AdvanceType.unrecognized n) v c e = cc

  step_condition-ConditionIs :
      (s : BrewStep) (o : Option AdvanceCondition) (c : StepCondition)
      → s.advance_condition ≡ o
      → get_step_condition core s ≡ ok c
      → ConditionIs o c
  unfolding get_step_condition
  step_condition-ConditionIs s none c e h = ground arith
  step_condition-ConditionIs s (some a) c e h =
      condition_of-AdvanceIs a.kind a.value c (ground arith)

  pub transform_steps-StepsAre :
      (l : List BrewStep) (k : List (StepTarget × StepCondition))
      → transform_steps core l ≡ ok k
      → StepsAre l k
  unfolding transform_steps get_step_target
  transform_steps-StepsAre [] [] e = tt
  transform_steps-StepsAre [] (x ∷ k) e = cc
  transform_steps-StepsAre (s ∷ l) k e =
      let (t, e₁, et) = >>=-returns (get_step_target core s) _ _ e in
      let (c, e₂, ec) = >>=-returns (get_step_condition core s) _ _ e₁ in
      let (j, e₃, ej) = >>=-returns (transform_steps core l) _ _ e₂ in
      let same : (t, c) ∷ j ≡ k = cc in
      rw (← same) (
        target_of-TargetIs s.target_type s.target_value t et,
        step_condition-ConditionIs s s.advance_condition c refl ec,
        transform_steps-StepsAre l j ej,
      )

  stop_rule_of-RuleIs :
      (k : StopType) (v : Float) (c : StepCondition) → stop_rule_of core k v ≡ ok c → RuleIs k v c
  unfolding stop_rule_of
  stop_rule_of-RuleIs StopType.total_time v c e = ground arith
  stop_rule_of-RuleIs StopType.total_weight v c e = ground arith
  stop_rule_of-RuleIs (StopType.unrecognized n) v c e = cc

  pub stop_rule-StopIs :
      (o : Option StopCondition) (c : StepCondition) → stop_rule core o ≡ ok c → StopIs o c
  unfolding stop_rule
  stop_rule-StopIs none c e = ground arith
  stop_rule-StopIs (some s) c e = stop_rule_of-RuleIs s.kind s.value c e
