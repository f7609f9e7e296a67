-- ===== src/Core/Sample.antt =====
-- A library that meets the laws, with each component as the calls made of it.
use openpressod.Prelude.{ℕ, ℤ, pos, pos_part, Bool, true, false, List, [], refl}
use openpressod.Messages.{StepTarget, StepCondition, never}
use openpressod.Core.{Core}

pub record Pin : Type 0 where
  pub active : Bool
  pub level : Bool

pub record Heater : Type 0 where
  pub heating : Bool
  pub target : ℤ

pub record Brewer : Type 0 where
  pub brewing : Bool
  pub steps : List (StepTarget × StepCondition)
  pub stop : StepCondition

abbrev pub core : Core
core = record {
  Output = Pin;
  is_active = λ o. o.active;
  activate_output = λ o. record o { active = true };
  deactivate_output = λ o. record o { active = false };
  level = λ o. o.level;
  set_state = λ b o. record o { level = b };
  level-set_state = λ b o. refl;
  is_active-set_state = λ b o. refl;
  is_active-activate = λ o. refl;
  is_active-deactivate = λ o. refl;
  Controller = Heater;
  is_heating = λ c. c.heating;
  turn_on = λ c. record c { heating = true };
  turn_off = λ c. record c { heating = false };
  target_temperature = λ c. c.target;
  set_target_temperature = λ t c. record c { target = t };
  is_heating-turn_on = λ c. refl;
  is_heating-turn_off = λ c. refl;
  is_heating-set_target = λ t c. refl;
  target-turn_on = λ c. refl;
  target-turn_off = λ c. refl;
  target-set_target = λ t c. refl;
  Profiler = Brewer;
  is_brewing = λ p. p.brewing;
  activate = λ p. record p { brewing = true };
  deactivate = λ p. record p { brewing = false };
  set_steps = λ l p. record p { steps = l };
  set_auto_stop_condition = λ c p. record p { stop = c };
  is_brewing-activate = λ p. refl;
  is_brewing-deactivate = λ p. refl;
  is_brewing-set_steps = λ l p. refl;
  is_brewing-set_auto_stop = λ c p. refl;
  Scale = ℕ;
  tare = λ s. 0;
  to_millibars = pos;
  to_flow = pos;
  to_duration = pos;
  to_weight = pos;
  of_millibars = pos_part;
}

abbrev pub pin : Pin
pin = record { active = false; level = false }

abbrev pub heater : ℤ → Heater
heater t = record { heating = false; target = t }

abbrev pub brewer : Brewer
brewer = record { brewing = false; steps = []; stop = never }
