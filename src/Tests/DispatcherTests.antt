-- ===== src/Tests/DispatcherTests.antt =====
-- The dispatcher and its subscribers.
use openpressod.Dispatcher.Settled.{IsSettled, Refused, run-IsSettled}
use openpressod.Reactor.{notify_changed}
use openpressod.Messages.{user_settings}
use openpressod.Files.{refused}
use openpressod.Core.Sample.{heater, core}
use openpressod.Prelude.{pos, ◌⊎◌, true, false, List, [], ◌∷◌, ◌≡◌, refl}
use openpressod.Machine
use openpressod.Machine.{StateManager, get_brew_state}
use openpressod.Reactor
use openpressod.Dispatcher.{Dispatcher, Procedure, run, destroy}
use openpressod.Dispatcher.View.{view, view_from, SeesBrew}
use openpressod.Dispatcher.Sync.{InSync, run-InSync}
use openpressod.Dispatcher.BrewSync.{KnowsBrew, buttons-KnowsBrew, calls-silent}
use openpressod.Tests.Fixtures.{hub, at, json, cold}
use openpressod.Tests.MachineTests.{brewing}
use openpressod.Buttons.{ButtonsConfig, Change, power_button, brew_button, handle}
use openpressod.Buttons.Power.{power_after, handle-power_known}

abbrev warm_hub : Dispatcher core
warm_hub = record hub { state_manager = record cold { power = true } }

abbrev brewing_hub : Dispatcher core
brewing_hub = record hub { state_manager = brewing }

hub-InSync : InSync hub
unfolding view view_from Machine.make
hub-InSync = ((refl, refl), tt)

hub-KnowsBrew : KnowsBrew hub
unfolding view view_from get_brew_state Machine.make
hub-KnowsBrew = (refl, tt)

subscriber-SeesBrew : SeesBrew false hub.events_sinks
unfolding view view_from
subscriber-SeesBrew = (refl, tt)

run-InSync_example : InSync (run json (at 20000 0) Procedure.toggle_power_state hub).1
run-InSync_example = run-InSync json (at 20000 0) Procedure.toggle_power_state hub hub-InSync

buttons-KnowsBrew_example :
    KnowsBrew (run json (at 20000 0) Procedure.toggle_brew hub).1
    × KnowsBrew (run json (at 20000 0) Procedure.start_brew hub).1
    × KnowsBrew (run json (at 20000 0) Procedure.stop_brew hub).1
    × KnowsBrew (run json (at 20000 0) Procedure.brew_stopped hub).1
buttons-KnowsBrew_example = buttons-KnowsBrew json (at 20000 0) hub hub-KnowsBrew

calls-silent_example :
    let m = (run json (at 95000 9000) Procedure.call_start_brew brewing_hub).1 in
    let n = (run json (at 95000 9000) Procedure.call_stop_brew brewing_hub).1 in
    let k = (run json (at 95000 9000) (Procedure.call_set_power_state false) brewing_hub).1 in
    let o = (run json (at 95000 9000) (Procedure.set_power_state false) brewing_hub).1 in
    let l = (run json (at 95000 9000) Procedure.toggle_power_state brewing_hub).1 in
    let e = destroy (at 95000 9000) brewing_hub in
    ((get_brew_state m.state_manager ≡ true) × SeesBrew false m.events_sinks)
    × ((get_brew_state n.state_manager ≡ false) × SeesBrew false n.events_sinks)
    × ((get_brew_state k.state_manager ≡ false) × SeesBrew false k.events_sinks)
    × ((get_brew_state o.state_manager ≡ false) × SeesBrew false o.events_sinks)
    × ((get_brew_state l.state_manager ≡ false) × SeesBrew false l.events_sinks)
    × ((get_brew_state e.state_manager ≡ false) × SeesBrew false e.events_sinks)
unfolding Machine.make
calls-silent_example =
    calls-silent json (at 95000 9000) false brewing_hub refl refl subscriber-SeesBrew

-- The machine has the steam temperature of its settings, and the subscriber knows them.
abbrev settled_hub : Dispatcher core
settled_hub = record hub {
  state_manager = record cold { steam_controller = heater (pos 150000) };
  events_sinks =
      notify_changed (user_settings hub.user_settings_manager.current_settings) (Reactor.make 9)
      ∷ [];
}

settled_hub-IsSettled : IsSettled settled_hub
unfolding view view_from notify_changed Reactor.make
settled_hub-IsSettled = (refl, (refl, tt))

-- New settings that cannot be written.
abbrev lost : Procedure
lost = Procedure.call_set_user_settings (record { steam_temperature = pos 140000 }) (λ t. refused)

run-IsSettled_example :
    IsSettled (run json (at 20000 0) lost settled_hub).1
    ⊎ Refused json (at 20000 0) lost settled_hub
run-IsSettled_example = run-IsSettled json (at 20000 0) lost settled_hub settled_hub-IsSettled

abbrev buttons : ButtonsConfig
buttons = record {
  power_button_bistable = false;
  brew_button_bistable = true;
  steam_button_bistable = false;
}

-- Power on, a brew for half a minute, power off.
abbrev morning : List Change
morning =
    record { button = power_button; state = true; readings = at 20000 0 }
    ∷ record { button = power_button; state = false; readings = at 20000 200 }
    ∷ record { button = brew_button; state = true; readings = at 95000 600000 }
    ∷ record { button = brew_button; state = false; readings = at 93000 630000 }
    ∷ record { button = power_button; state = true; readings = at 95000 700000 }
    ∷ []

handle-power_known_example :
    ((handle json buttons morning hub).state_manager.power
      ≡ power_after false morning hub.state_manager.power)
    × InSync (handle json buttons morning hub)
handle-power_known_example = handle-power_known json buttons morning hub hub-InSync
