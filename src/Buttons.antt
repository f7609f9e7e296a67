-- ===== src/Buttons.antt =====
-- src/buttons/buttons_callback_registrator.cpp: what a change of each button asks of the dispatcher.
-- Registering the callbacks with libopenpresso has no state here.
pub mod Power
use openpressod.Prelude.{Bool, true, false, List, [], ◌∷◌, if◌then◌else◌}
use openpressod.Core.{Core, Readings}
use openpressod.Files.{Json}
use openpressod.Dispatcher.{Dispatcher, Procedure, run}

pub data Button : Type 0 where
  power_button brew_button steam_button : Button

-- Which buttons keep their position, from the configuration.
pub record ButtonsConfig : Type 0 where
  pub power_button_bistable : Bool
  pub brew_button_bistable : Bool
  pub steam_button_bistable : Bool

-- The three callbacks, by the way that they are registered, at a state of the button: the procedures
-- that they enqueue.
unfoldable pub power_button_callback : (bistable state : Bool) → List Procedure
power_button_callback bistable state =
    if bistable
    then Procedure.set_power_state state ∷ []
    else if state
    then Procedure.toggle_power_state ∷ []
    else []

unfoldable pub brew_button_callback : (bistable state : Bool) → List Procedure
brew_button_callback bistable state =
    if bistable
    then (if state then Procedure.start_brew else Procedure.stop_brew) ∷ []
    else if state
    then Procedure.toggle_brew ∷ []
    else []

unfoldable pub steam_button_callback : (bistable state : Bool) → List Procedure
steam_button_callback bistable state =
    if bistable
    then Procedure.set_steam_mode_state state ∷ []
    else if state
    then Procedure.toggle_steam_mode_state ∷ []
    else []

unfoldable pub on_change : ButtonsConfig → Button → Bool → List Procedure
on_change c power_button state = power_button_callback c.power_button_bistable state
on_change c brew_button state = brew_button_callback c.brew_button_bistable state
on_change c steam_button state = steam_button_callback c.steam_button_bistable state

-- A button, its new state, and the readings when the procedure is run.
pub record Change : Type 0 where
  pub button : Button
  pub state : Bool
  pub readings : Readings

module _ {core : Core} (json : Json) where
  unfoldable pub run_all : Readings → List Procedure → Dispatcher core → Dispatcher core
  run_all r [] d = d
  run_all r (p ∷ l) d = run_all r l (run json r p d).1

  -- The changes one after another, each with the procedures that it asks for.
  unfoldable pub handle : ButtonsConfig → List Change → Dispatcher core → Dispatcher core
  handle c [] d = d
  handle c (x ∷ l) d = handle c l (run_all x.readings (on_change c x.button x.state) d)
