-- ===== src/Buttons/Power.antt =====
-- What the power is after any use of the buttons, and who knows it.
use openpressod.Prelude.{Bool, not, List, [], ◌∷◌, ◌≡◌, refl, arith, ◌∙◌, ap, if◌then◌else◌}
use openpressod.Core.{Core, Readings}
use openpressod.Files.{Json}
use openpressod.Machine.{get_power_state, get_brew_state, get_steam_mode_state}
use openpressod.Machine.Modes.{
  set_power_state_modes, start_brew_modes, stop_brew_modes, set_steam_mode_state_modes,
}
use openpressod.Dispatcher.{
  Dispatcher, Procedure, run, broadcast, broadcast_if, do_set_power_state, do_start_brew,
  do_stop_brew, do_set_steam_mode_state, toggle_brew_body,
}
use openpressod.Dispatcher.Sync.{InSync, run-InSync}
use openpressod.Buttons.{
  power_button, brew_button, steam_button, ButtonsConfig, power_button_callback,
  brew_button_callback, steam_button_callback, on_change, Change, run_all, handle,
}

-- How the power button counts: a bistable one by its position, any other by its presses.
abbrev pub power_by : (bistable : Bool) → Change → Bool → Bool
power_by bistable x power = elim x.button [
  | power_button ↦ if bistable then x.state else if x.state then not power else power
  | brew_button ↦ power
  | steam_button ↦ power
]

unfoldable pub power_after : (bistable : Bool) → List Change → Bool → Bool
power_after bistable [] power = power
power_after bistable (x ∷ l) power = power_after bistable l (power_by bistable x power)

module _ {core : Core} (json : Json) where
  change-power :
      (c : ButtonsConfig) (x : Change) (d : Dispatcher core)
      → (run_all json x.readings (on_change c x.button x.state) d).state_manager.power
        ≡ power_by c.power_button_bistable x d.state_manager.power
  unfolding run_all on_change power_button_callback brew_button_callback steam_button_callback run
      do_set_power_state do_start_brew do_stop_brew do_set_steam_mode_state toggle_brew_body
      broadcast broadcast_if get_power_state get_brew_state get_steam_mode_state
  change-power c x d =
      let m = d.state_manager in
      let r = x.readings in
      ground (
        arith,
        set_power_state_modes x.state r m,
        set_power_state_modes (not m.power) r m,
        start_brew_modes r m,
        stop_brew_modes r m,
        set_steam_mode_state_modes x.state r m,
        set_steam_mode_state_modes (not m.steam) r m,
      )

  run_all-InSync :
      (r : Readings) (l : List Procedure) (d : Dispatcher core)
      → InSync d
      → InSync (run_all json r l d)
  unfolding run_all
  run_all-InSync r [] d h = h
  run_all-InSync r (p ∷ l) d h = run_all-InSync r l (run json r p d).1 (run-InSync json r p d h)

  handle-power :
      (c : ButtonsConfig) (l : List Change) (d : Dispatcher core)
      → (handle json c l d).state_manager.power
        ≡ power_after c.power_button_bistable l d.state_manager.power
  unfolding handle power_after
  handle-power c [] d = refl
  handle-power c (x ∷ l) d =
      handle-power c l (run_all json x.readings (on_change c x.button x.state) d)
      ∙ ap (λ b. power_after c.power_button_bistable l b) (change-power c x d)

  handle-InSync :
      (c : ButtonsConfig) (l : List Change) (d : Dispatcher core)
      → InSync d
      → InSync (handle json c l d)
  unfolding handle
  handle-InSync c [] d h = h
  handle-InSync c (x ∷ l) d h =
      handle-InSync c l (run_all json x.readings (on_change c x.button x.state) d)
        (run_all-InSync x.readings (on_change c x.button x.state) d h)

-- After any changes of the three buttons, in any order and at any readings, the power is the last
-- position of a bistable power button, or has been switched once for each press of one that is not,
-- whatever the other buttons did; and every subscriber who knew the power and the steam mode before
-- still knows them.
pub handle-power_known :
    {core : Core} (json : Json) (c : ButtonsConfig) (l : List Change) (d : Dispatcher core)
    → InSync d
    → ((handle json c l d).state_manager.power
        ≡ power_after c.power_button_bistable l d.state_manager.power)
      × InSync (handle json c l d)
handle-power_known json c l d h = (handle-power json c l d, handle-InSync json c l d h)
