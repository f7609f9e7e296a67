-- ===== src/Dispatcher/Heater.antt =====
-- What the subscribers know of the heating status while procedures run that do not announce it.
use openpressod.Prelude.{Bool, true, false, some, ◌≡◌, refl, sym, ap, ◌∙◌, arith}
use openpressod.Messages.{HeatingStatus}
use openpressod.Core.{Core, Readings}
use openpressod.Files.{Json}
use openpressod.Machine
use openpressod.Dispatcher.View.{View, SeesHeater}
use openpressod.Dispatcher.Knowledge
use openpressod.Dispatcher.Knowledge.{IsApart}
use openpressod.Dispatcher.{Dispatcher, Procedure, run}

-- The procedures of the status callback.
abbrev pub is_notification : Procedure → Bool
is_notification (Procedure.notify_heating_status_change s) = true
is_notification _ = false

heater-IsApart : IsApart (λ (v : View). v.heater)
heater-IsApart = record {
  power = λ b v. refl;
  brew = λ b v. refl;
  steam = λ b v. refl;
  profile = λ p v. refl;
  progress = λ n v. refl;
}

-- A procedure that does not announce the heating status leaves it as the subscribers know it.
pub run-Knows :
    {core : Core} (status : HeatingStatus) (json : Json) (r : Readings) (p : Procedure)
    (d : Dispatcher core)
    → is_notification p ≡ false
    → Machine.heating_status d.state_manager ≡ status
    → SeesHeater status d.events_sinks
    → SeesHeater status (run json r p d).1.events_sinks
run-Knows status json r p d n current v =
    Knowledge.run-Knows heater-IsApart status json r p d
      (λ x e. absurd (ground (arith, sym (ap is_notification e) ∙ n))) (λ u w e t. refl)
      (ap some current) v
