-- ===== src/Service/Replies.antt =====
-- What a client of the service is told, and what it reads afterwards.
use Prim.Native.String.{String}
use openpressod.Prelude.{Bool, true, false, ◌≡◌, ◌⊎◌, refl, arith, inl, inr, if◌then◌else◌, ◌≢◌}
use openpressod.Messages.{BrewProfile, UserSettings}
use openpressod.Core.{Core, Readings}
use openpressod.Results.{Error, Result, ok, err, Result-cases, Done, done}
use openpressod.Files.{Json, Write}
use openpressod.Machine.{StateManager}
use openpressod.Machine
use openpressod.Machine.Modes.{set_power_state_modes, stop_brew_modes, set_steam_mode_state_modes}
use openpressod.Machine.Behaviour.{start_brew_cases}
use openpressod.Profiles.{get_profile, save_profile, write_profile}
use openpressod.Settings.{get_settings, save_settings, write_settings}
use openpressod.Dispatcher.{
  Dispatcher, Reply, nothing, flag, profile, settings, reply, run, broadcast, broadcast_if,
  do_set_power_state, do_set_steam_mode_state, stop_brew_body, set_brew_profile_body,
  set_user_settings_body,
}
use openpressod.Profiles.Apply.{apply_while_brewing}
use openpressod.Service.{
  Call, Status, fine, aborted, procedure_of, void_callback, value_callback, callback_of, serve,
}

-- The methods that only read.
abbrev pub is_query : Call → Bool
is_query Call.get_user_settings = true
is_query Call.get_brew_profile = true
is_query Call.get_power_state = true
is_query Call.get_brew_state = true
is_query Call.get_steam_mode_state = true
is_query _ = false

-- How a call whose procedure is `x` is answered.
Answered : Result Reply → Status × Reply → Type 0
Answered x (status, answer) =
    (answer ≡ nothing)
    × (((status ≡ fine) × (x ≡ ok nothing)) ⊎ ((e : Error) × (status ≡ aborted e) × (x ≡ err e)))

void_callback-reply-Answered : (x : Done) → Answered (reply x) (void_callback (reply x))
unfolding Answered void_callback
void_callback-reply-Answered (ok a) = (refl, inl (refl, refl))
void_callback-reply-Answered (err e) = (refl, inr (e, refl, refl))

module _ {core : Core} (json : Json) where
  set_power_state-read :
      (r s : Readings) (w v : String → Write) (b : Bool) (d : Dispatcher core)
      → let n = (serve json r w (Call.set_power_state b) d).1 in
        serve json s v Call.get_power_state n ≡ ((fine, flag b), n)
  unfolding serve procedure_of callback_of value_callback run do_set_power_state broadcast
      Machine.get_power_state
  set_power_state-read r s w v b d = ground (arith, set_power_state_modes b r d.state_manager)

  set_steam_mode_state-read :
      (r s : Readings) (w v : String → Write) (b : Bool) (d : Dispatcher core)
      → (serve json r w (Call.set_steam_mode_state b) d).0.0 ≡ fine
      → let n = (serve json r w (Call.set_steam_mode_state b) d).1 in
        serve json s v Call.get_steam_mode_state n ≡ ((fine, flag b), n)
  unfolding serve procedure_of callback_of value_callback void_callback run do_set_steam_mode_state
      broadcast_if broadcast Machine.get_steam_mode_state
  set_steam_mode_state-read r s w v b d h =
      ground (arith, set_steam_mode_state_modes b r d.state_manager)

  start_brew-read :
      (r s : Readings) (w v : String → Write) (d : Dispatcher core)
      → (serve json r w Call.start_brew d).0.0 ≡ fine
      → let n = (serve json r w Call.start_brew d).1 in
        serve json s v Call.get_brew_state n ≡ ((fine, flag true), n)
  unfolding serve procedure_of callback_of value_callback void_callback run Machine.get_brew_state
  start_brew-read r s w v d h = ground (arith, start_brew_cases r d.state_manager)

  stop_brew-read :
      (r s : Readings) (w v : String → Write) (d : Dispatcher core)
      → let n = (serve json r w Call.stop_brew d).1 in
        serve json s v Call.get_brew_state n ≡ ((fine, flag false), n)
  unfolding serve procedure_of callback_of value_callback run stop_brew_body broadcast
      Machine.get_brew_state
  stop_brew-read r s w v d = ground (arith, stop_brew_modes r d.state_manager)

  set_brew_profile-manager :
      (r : Readings) (w : String → Write) (p : BrewProfile) (d : Dispatcher core)
      → (set_brew_profile_body json p w r d).1.brew_profile_manager.current_profile ≡ p
  unfolding set_brew_profile_body save_profile write_profile broadcast_if broadcast
  set_brew_profile-manager r w p d = ground arith

  set_user_settings-manager :
      (r : Readings) (w : String → Write) (u : UserSettings) (d : Dispatcher core)
      → (set_user_settings_body json u w r d).1.user_settings_manager.current_settings ≡ u
  unfolding set_user_settings_body save_settings write_settings broadcast_if broadcast
  set_user_settings-manager r w u d = ground arith

  set_brew_profile-read :
      (r s : Readings) (w v : String → Write) (p : BrewProfile) (d : Dispatcher core)
      → let n = (serve json r w (Call.set_brew_profile p) d).1 in
        serve json s v Call.get_brew_profile n ≡ ((fine, profile p), n)
  unfolding serve procedure_of callback_of value_callback run get_profile
  set_brew_profile-read r s w v p d = ground (arith, set_brew_profile-manager r w p d)

  set_user_settings-read :
      (r s : Readings) (w v : String → Write) (u : UserSettings) (d : Dispatcher core)
      → let n = (serve json r w (Call.set_user_settings u) d).1 in
        serve json s v Call.get_user_settings n ≡ ((fine, settings u), n)
  unfolding serve procedure_of callback_of value_callback run get_settings
  set_user_settings-read r s w v u d = ground (arith, set_user_settings-manager r w u d)

  -- A client that changes a state and then asks for it, with nothing in between, is told what it
  -- asked for: the power and the end of a brew always, the steam mode and the start of a brew if the
  -- change was answered with OK, and the brew profile and the user settings whatever the answer was.
  pub set-read :
      (r s : Readings) (w v : String → Write) (b : Bool) (p : BrewProfile) (u : UserSettings)
      (d : Dispatcher core)
      → let after = λ (c : Call). (serve json r w c d).1 in
        let status = λ (c : Call). (serve json r w c d).0.0 in
        let told = λ (c q : Call) (a : Reply). serve json s v q (after c) ≡ ((fine, a), after c) in
        told (Call.set_power_state b) Call.get_power_state (flag b)
        × (status (Call.set_steam_mode_state b) ≡ fine
            → told (Call.set_steam_mode_state b) Call.get_steam_mode_state (flag b))
        × (status Call.start_brew ≡ fine → told Call.start_brew Call.get_brew_state (flag true))
        × told Call.stop_brew Call.get_brew_state (flag false)
        × told (Call.set_brew_profile p) Call.get_brew_profile (profile p)
        × told (Call.set_user_settings u) Call.get_user_settings (settings u)
  set-read r s w v b p u d = (
    set_power_state-read r s w v b d,
    set_steam_mode_state-read r s w v b d,
    start_brew-read r s w v d,
    stop_brew-read r s w v d,
    set_brew_profile-read r s w v p d,
    set_user_settings-read r s w v u d,
  )

  set_brew_profile-refused :
      (r : Readings) (w : String → Write) (p : BrewProfile) (d : Dispatcher core)
      → core.is_brewing d.state_manager.brew_profiler ≡ true
      → let (x, n) = set_brew_profile_body json p w r d in
        (x ≢ done)
        × (n.state_manager.brew_profiler ≡ d.state_manager.brew_profiler)
        × (n.events_sinks ≡ d.events_sinks)
  unfolding set_brew_profile_body broadcast_if broadcast
  set_brew_profile-refused r w p d busy =
      let m = (save_profile json p w d.brew_profile_manager).1 in
      let refused = apply_while_brewing r m d.state_manager busy in
      (λ h. ground (arith, refused), ground (arith, refused), ground (arith, refused))

  -- A brew profile that a client sends while a brew runs is answered with ABORTED, reaches neither
  -- the brew profiler nor a subscriber, and yet is the profile that clients read from then on.
  pub refused_profile-read :
      (r s : Readings) (w v : String → Write) (p : BrewProfile) (d : Dispatcher core)
      → core.is_brewing d.state_manager.brew_profiler ≡ true
      → let (answer, n) = serve json r w (Call.set_brew_profile p) d in
        ((e : Error) × (answer ≡ (aborted e, nothing)))
        × (n.state_manager.brew_profiler ≡ d.state_manager.brew_profiler)
        × (n.events_sinks ≡ d.events_sinks)
        × (serve json s v Call.get_brew_profile n ≡ ((fine, profile p), n))
  unfolding serve procedure_of callback_of void_callback run
  refused_profile-read r s w v p d busy =
      let refused = set_brew_profile-refused r w p d busy in
      elim (Result-cases (set_brew_profile_body json p w r d).0) [
        | inl (a, e) ↦ absurd (ground (arith, refused))
        | inr (x, e) ↦ ((x, rw e refl), refused.1, refused.2, set_brew_profile-read r s w v p d)
      ]

  -- A call that only reads is answered with OK and changes nothing. Any other is answered with OK
  -- and no value, or with ABORTED and the exception that its procedure has thrown; never with
  -- UNKNOWN.
  pub serve-status :
      (r : Readings) (w : String → Write) (c : Call) (d : Dispatcher core)
      → let ((status, answer), n) = serve json r w c d in
        if is_query c
        then (status ≡ fine) × (n ≡ d)
        else (answer ≡ nothing)
          × (((status ≡ fine) × ((run json r (procedure_of w c) d).0 ≡ ok nothing))
              ⊎ ((e : Error) × (status ≡ aborted e)
                  × ((run json r (procedure_of w c) d).0 ≡ err e)))
  unfolding serve procedure_of callback_of void_callback value_callback run Answered
  serve-status r w Call.get_user_settings d = (refl, refl)
  serve-status r w Call.get_brew_profile d = (refl, refl)
  serve-status r w Call.get_power_state d = (refl, refl)
  serve-status r w Call.get_brew_state d = (refl, refl)
  serve-status r w Call.get_steam_mode_state d = (refl, refl)
  serve-status r w (Call.set_power_state b) d = (refl, inl (refl, refl))
  serve-status r w Call.stop_brew d = (refl, inl (refl, refl))
  serve-status r w Call.reset_scales d =
      void_callback-reply-Answered (Machine.reset_scales d.state_manager).0
  serve-status r w Call.start_brew d =
      void_callback-reply-Answered (Machine.start_brew r d.state_manager).0
  serve-status r w (Call.set_user_settings u) d =
      void_callback-reply-Answered (set_user_settings_body json u w r d).0
  serve-status r w (Call.set_brew_profile p) d =
      void_callback-reply-Answered (set_brew_profile_body json p w r d).0
  serve-status r w (Call.set_steam_mode_state b) d =
      void_callback-reply-Answered (do_set_steam_mode_state b r d).0
