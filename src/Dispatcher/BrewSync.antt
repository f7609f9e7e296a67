-- ===== src/Dispatcher/BrewSync.antt =====
-- Which procedures tell the subscribers about the brew, and which do not.
use openpressod.Prelude.{not, refl, Bool, true, false, none, ◌≡◌, arith, Bool-cases, inl, inr}
use openpressod.Messages.{power_state, brew_state, brew_progress}
use openpressod.Core.{Core, Readings}
use openpressod.Results.{Result-cases}
use openpressod.Files.{Json}
use openpressod.Machine.{StateManager, get_brew_state}
use openpressod.Machine
use openpressod.Machine.Modes.{start_brew_modes, stop_brew_modes, set_power_state_modes}
use openpressod.Machine.Behaviour.{start_brew_cases}
use openpressod.Dispatcher.View.{SeesBrew, SeesBrew-notify_changed}
use openpressod.Dispatcher.{
  Dispatcher, Procedure, broadcast, broadcast_if, do_set_power_state, do_start_brew, do_stop_brew,
  toggle_brew_body, stop_brew_body, run, destroy,
}

-- Every subscriber knows whether a brew runs.
abbrev pub KnowsBrew : {core : Core} → Dispatcher core → Type 0
KnowsBrew d = SeesBrew (get_brew_state d.state_manager) d.events_sinks

module _ {core : Core} where
  open core use {is_brewing}

  do_start_brew-KnowsBrew :
      (r : Readings) (d : Dispatcher core) → KnowsBrew d → KnowsBrew (do_start_brew r d).1
  unfolding do_start_brew broadcast_if broadcast get_brew_state
  do_start_brew-KnowsBrew r d h =
      let m = d.state_manager in
      let cases = start_brew_cases r m in
      elim (Result-cases (Machine.start_brew r m).0) [
        | inl (a, e) ↦
            let on : is_brewing (Machine.start_brew r m).1.brew_profiler ≡ true =
              ground (arith, cases) in
            rw (e, broadcast_if, on)
              (SeesBrew-notify_changed (brew_state true) (is_brewing m.brew_profiler) d.events_sinks
                h)
        | inr (x, e) ↦
            let same : (Machine.start_brew r m).1 ≡ m = ground (arith, cases) in
            rw (e, broadcast_if, same) h
      ]

  do_stop_brew-KnowsBrew :
      (r : Readings) (d : Dispatcher core) → KnowsBrew d → KnowsBrew (do_stop_brew r d)
  unfolding do_stop_brew broadcast get_brew_state
  do_stop_brew-KnowsBrew r d h = elim (Bool-cases (is_brewing d.state_manager.brew_profiler)) [
    | inr e ↦ rw e h
    | inl e ↦
        let off = (stop_brew_modes r d.state_manager).2 in
        rw (e, off)
          (SeesBrew-notify_changed (brew_state false) (is_brewing d.state_manager.brew_profiler)
            d.events_sinks h)
  ]

  -- The brew button, `startBrew` and `stopBrew` without a callback, and the profiler's report that
  -- the brew has stopped: if every subscriber knows whether a brew runs, they still know it
  -- afterwards, also if the procedure throws.
  pub buttons-KnowsBrew :
      (json : Json) (r : Readings) (d : Dispatcher core)
      → KnowsBrew d
      → KnowsBrew (run json r Procedure.toggle_brew d).1
        × KnowsBrew (run json r Procedure.start_brew d).1
        × KnowsBrew (run json r Procedure.stop_brew d).1
        × KnowsBrew (run json r Procedure.brew_stopped d).1
  unfolding run toggle_brew_body
  buttons-KnowsBrew json r d h =
      let start = do_start_brew-KnowsBrew r d h in
      let stop = do_stop_brew-KnowsBrew r d h in
      (
        elim (Bool-cases (get_brew_state d.state_manager)) [
          | inl e ↦ rw e stop
          | inr e ↦ rw e start
        ],
        start,
        stop,
        stop,
      )

  destroy-silent :
      (r : Readings) (d : Dispatcher core)
      → (get_brew_state (destroy r d).state_manager ≡ false)
        × ((destroy r d).events_sinks ≡ d.events_sinks)
  unfolding destroy get_brew_state Machine.get_power_state
  destroy-silent r d =
      let m = d.state_manager in
      let n = Machine.stop_brew r m in
      (
        ground (
          arith,
          stop_brew_modes r m,
          set_power_state_modes false r n,
          set_power_state_modes false r m,
        ),
        refl,
      )

  do_set_power_state-silent :
      (r : Readings) (b : Bool) (d : Dispatcher core)
      → d.state_manager.power ≡ true
      → SeesBrew b d.events_sinks
      → let n = do_set_power_state false r d in
        (get_brew_state n.state_manager ≡ false) × SeesBrew b n.events_sinks
  unfolding do_set_power_state broadcast get_brew_state
  do_set_power_state-silent r b d on h = (
    ground (arith, set_power_state_modes false r d.state_manager),
    SeesBrew-notify_changed (power_state false) b d.events_sinks h,
  )

  -- With the power on and steam mode off: a brew that a client of the service starts runs, and one that
  -- is ended by a client's `StopBrew`, by switching the power off (by a client, or by a power button
  -- that toggles or that has two positions) or by the dispatcher's destructor is over; and each time
  -- the subscribers still believe what they believed before.
  pub calls-silent :
      (json : Json) (r : Readings) (b : Bool) (d : Dispatcher core)
      → d.state_manager.power ≡ true
      → d.state_manager.steam ≡ false
      → SeesBrew b d.events_sinks
      → let m = (run json r Procedure.call_start_brew d).1 in
        let n = (run json r Procedure.call_stop_brew d).1 in
        let k = (run json r (Procedure.call_set_power_state false) d).1 in
        let o = (run json r (Procedure.set_power_state false) d).1 in
        let l = (run json r Procedure.toggle_power_state d).1 in
        let e = destroy r d in
        ((get_brew_state m.state_manager ≡ true) × SeesBrew b m.events_sinks)
        × ((get_brew_state n.state_manager ≡ false) × SeesBrew b n.events_sinks)
        × ((get_brew_state k.state_manager ≡ false) × SeesBrew b k.events_sinks)
        × ((get_brew_state o.state_manager ≡ false) × SeesBrew b o.events_sinks)
        × ((get_brew_state l.state_manager ≡ false) × SeesBrew b l.events_sinks)
        × ((get_brew_state e.state_manager ≡ false) × SeesBrew b e.events_sinks)
  unfolding run get_brew_state stop_brew_body broadcast Machine.get_power_state
  calls-silent json r b d on steam h =
      let off = do_set_power_state-silent r b d on h in
      let ended = destroy-silent r d in
      let flipped : not d.state_manager.power ≡ false = ground arith in
      (
        (ground (arith, start_brew_modes r d.state_manager), h),
        (
          (stop_brew_modes r d.state_manager).2,
          SeesBrew-notify_changed (brew_progress none) b d.events_sinks h,
        ),
        off,
        off,
        rw flipped off,
        (ended.0, rw (ended.1) h),
      )
