-- ===== src/Service.antt =====
-- src/service/openppressod_service_impl.cpp: the calls of the gRPC service. A call enqueues one
-- procedure of the dispatcher, whose callback finishes the call. `metrics` is in Metrics.
pub mod Replies
use Prim.Native.String.{String}
use openpressod.Prelude.{ℕ, Bool}
use openpressod.Messages.{BrewProfile, UserSettings}
use openpressod.Core.{Core, Readings}
use openpressod.Results.{Error, Result, ok, err}
use openpressod.Files.{Json, Write}
use openpressod.Reactor
use openpressod.Dispatcher.{Dispatcher, Procedure, Reply, nothing, run}

-- The methods with one answer, by their requests.
pub data Call : Type 0 where
  reset_scales get_user_settings get_brew_profile get_power_state : Call
  start_brew stop_brew get_brew_state get_steam_mode_state : Call
  set_user_settings : UserSettings → Call
  set_brew_profile : BrewProfile → Call
  set_power_state set_steam_mode_state : Bool → Call

-- The `grpc::Status` that `Finish` is called with; the error stands for its text.
pub data Status : Type 0 where
  fine : Status
  aborted unknown : Error → Status

-- What the dispatcher's method that is called enqueues. `w` tells how writing a file goes.
unfoldable pub procedure_of : (String → Write) → Call → Procedure
procedure_of w reset_scales = Procedure.call_reset_weight
procedure_of w get_user_settings = Procedure.call_get_user_settings
procedure_of w get_brew_profile = Procedure.call_get_brew_profile
procedure_of w get_power_state = Procedure.call_get_power_state
procedure_of w start_brew = Procedure.call_start_brew
procedure_of w stop_brew = Procedure.call_stop_brew
procedure_of w get_brew_state = Procedure.call_get_brew_state
procedure_of w get_steam_mode_state = Procedure.call_get_steam_mode_state
procedure_of w (set_user_settings u) = Procedure.call_set_user_settings u w
procedure_of w (set_brew_profile p) = Procedure.call_set_brew_profile p w
procedure_of w (set_power_state b) = Procedure.call_set_power_state b
procedure_of w (set_steam_mode_state b) = Procedure.call_set_steam_mode_state b

-- `makeVoidCallback`; the answer is empty.
unfoldable pub void_callback : Result Reply → Status × Reply
void_callback (ok a) = (fine, nothing)
void_callback (err e) = (aborted e, nothing)

-- The callback of a method that reads a value: an answer that is not set stays empty.
unfoldable pub value_callback : Result Reply → Status × Reply
value_callback (ok a) = (fine, a)
value_callback (err e) = (unknown e, nothing)

unfoldable pub callback_of : Call → Result Reply → Status × Reply
callback_of get_user_settings = value_callback
callback_of get_brew_profile = value_callback
callback_of get_power_state = value_callback
callback_of get_brew_state = value_callback
callback_of get_steam_mode_state = value_callback
callback_of reset_scales = void_callback
callback_of start_brew = void_callback
callback_of stop_brew = void_callback
callback_of (set_user_settings u) = void_callback
callback_of (set_brew_profile p) = void_callback
callback_of (set_power_state b) = void_callback
callback_of (set_steam_mode_state b) = void_callback

module _ {core : Core} (json : Json) where
  -- One call, when its procedure runs.
  unfoldable pub serve :
      Readings → (String → Write) → Call → Dispatcher core → (Status × Reply) × Dispatcher core
  serve r w c d = let (result, n) = run json r (procedure_of w c) d in (callback_of c result, n)

  -- `events`: a reactor of its own for each subscriber.
  unfoldable pub events : Readings → ℕ → Dispatcher core → Dispatcher core
  events r id d = (run json r (Procedure.add_events_stream_reactor (Reactor.make id)) d).1
