-- ===== src/Tests/Fixtures.antt =====
-- One machine, cold and at rest, with its settings, its files and one subscriber.
use openpressod.Prelude.{ℕ, pos, Bool, true, false, none, some, [], ◌∷◌}
use openpressod.Messages.{
  BrewProfile, TargetType, AdvanceType, StopType, power_state, brew_state, steam_mode_state,
}
use openpressod.Core.{Readings}
use openpressod.Core.Sample.{core, pin, heater, brewer}
use openpressod.Leds.{LedsHandler}
use openpressod.Status.{StatusManager}
use openpressod.Status
use openpressod.Machine.{StateManager}
use openpressod.Machine
use openpressod.Files.{Json, unreadable}
use openpressod.Profiles.{BrewProfileManager}
use openpressod.Settings.{UserSettingsManager}
use openpressod.Reactor.{EventsStreamReactor, WriteStatus}
use openpressod.Dispatcher.{Dispatcher}

abbrev pub leds : LedsHandler core
leds = record { power = pin; brew = pin; steam = pin }

-- Windows of 0.5 and 1 degree, and a hysteresis period of 250 ms.
abbrev pub cold_status : StatusManager core
cold_status = Status.make (pos 500) (pos 1000) 250 leds

abbrev pub cold : StateManager core
cold = Machine.make false brewer (heater (pos 95000)) (heater (pos 155000)) 0 cold_status

-- The boiler at some temperature in millidegrees, a sensor that reports every 100 ms, and the clock.
abbrev pub at : ℕ → ℕ → Readings
at t ms = record { temperature = pos t; update_rate = some 100; clock = ms }

-- Ten seconds at 2 bar, then 9 bar, for 36 g in all.
abbrev pub espresso : BrewProfile
espresso = record {
  name = "espresso";
  temperature = pos 93000;
  steps =
      record {
        target_type = TargetType.pressure;
        target_value = 2000;
        advance_condition = some (record { kind = AdvanceType.step_time; value = 10000 });
      }
      ∷ record { target_type = TargetType.pressure; target_value = 9000; advance_condition = none }
      ∷ [];
  stop_condition = some (record { kind = StopType.total_weight; value = 36 });
}

abbrev pub json : Json
json = record {
  print_profile = λ p. some "espresso";
  parse_profile = λ s. (true, espresso);
  print_settings = λ u. some "settings";
  parse_settings = λ s. (true, record { steam_temperature = pos 150000 });
}

abbrev pub profiles : BrewProfileManager
profiles = record {
  profile_file = unreadable;
  current_profile = espresso;
  default_profile = espresso;
}

abbrev pub settings : UserSettingsManager
settings = record {
  settings_file = unreadable;
  current_settings = record { steam_temperature = pos 150000 };
  default_settings = record { steam_temperature = pos 155000 };
}

-- A subscriber who knows the power, no brew, and no steam mode.
abbrev pub subscriber : Bool → EventsStreamReactor
subscriber power = record {
  reactor_id = 7;
  write_status = WriteStatus.idle;
  queue_size = 3;
  events_queue = power_state power ∷ brew_state false ∷ steam_mode_state false ∷ [];
}

abbrev pub hub : Dispatcher core
hub = record {
  state_manager = cold;
  brew_profile_manager = profiles;
  user_settings_manager = settings;
  events_sinks = subscriber false ∷ [];
}
