-- ===== src/Tests/ServiceTests.antt =====
-- The service, the metrics stream and the start of the daemon.
use Prim.Native.String.{String}
use openpressod.Prelude.{pos, true, false, ◌≡◌, ◌⊎◌, refl}
use openpressod.Core.Sample.{core}
use openpressod.Results.{Error, ok, err}
use openpressod.Files.{content, finished, Write}
use openpressod.Dispatcher.{Dispatcher, Reply, nothing, flag, profile, settings, run}
use openpressod.Service.{Call, Status, fine, aborted, serve, procedure_of}
use openpressod.Service.Replies.{set-read, refused_profile-read, serve-status}
use openpressod.Tests.Fixtures.{json, hub, at, espresso}
use openpressod.Tests.MachineTests.{brewing}

abbrev writes : String → Write
writes s = finished (content s)

abbrev busy_hub : Dispatcher core
busy_hub = record hub { state_manager = brewing }

abbrev answered : Call → Dispatcher core → (Status × Reply) × Dispatcher core
answered c d = serve json (at 95000 0) writes c d

set-read_example :
    let after = λ (c : Call). (answered c hub).1 in
    let told = λ (c q : Call) (a : Reply). answered q (after c) ≡ ((fine, a), after c) in
    told (Call.set_power_state true) Call.get_power_state (flag true)
    × ((answered (Call.set_steam_mode_state true) hub).0.0 ≡ fine
        → told (Call.set_steam_mode_state true) Call.get_steam_mode_state (flag true))
    × ((answered Call.start_brew hub).0.0 ≡ fine
        → told Call.start_brew Call.get_brew_state (flag true))
    × told Call.stop_brew Call.get_brew_state (flag false)
    × told (Call.set_brew_profile espresso) Call.get_brew_profile (profile espresso)
    × told
        (Call.set_user_settings (record { steam_temperature = pos 140000 }))
        Call.get_user_settings
        (settings (record { steam_temperature = pos 140000 }))
set-read_example =
    set-read json (at 95000 0) (at 95000 0) writes writes true espresso
      (record { steam_temperature = pos 140000 }) hub

refused_profile-read_example :
    let (answer, n) = answered (Call.set_brew_profile espresso) busy_hub in
    ((e : Error) × (answer ≡ (aborted e, nothing)))
    × (n.state_manager.brew_profiler ≡ busy_hub.state_manager.brew_profiler)
    × (n.events_sinks ≡ busy_hub.events_sinks)
    × (answered Call.get_brew_profile n ≡ ((fine, profile espresso), n))
refused_profile-read_example =
    refused_profile-read json (at 95000 0) (at 95000 0) writes writes espresso busy_hub refl

serve-status_example :
    let ((status, answer), n) = answered Call.start_brew hub in
    (answer ≡ nothing)
    × (((status ≡ fine)
          × ((run json (at 95000 0) (procedure_of writes Call.start_brew) hub).0 ≡ ok nothing))
        ⊎ ((e : Error) × (status ≡ aborted e)
            × ((run json (at 95000 0) (procedure_of writes Call.start_brew) hub).0 ≡ err e)))
serve-status_example = serve-status json (at 95000 0) writes Call.start_brew hub
