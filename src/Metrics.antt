-- ===== src/Metrics.antt =====
-- src/service/metrics_stream_reactor.hpp and metrics_stream_reactor.cpp, and `metrics` of
-- src/service/openppressod_service_impl.cpp: what a metrics stream sends. The sensors and the
-- temperature controllers belong to libopenpresso: their values are readings, and a controller is its
-- label. Numbers of nanoseconds are unbounded.
pub mod Worker
pub mod Stop
pub mod Sound
use Prim.Native.String.{String}
use openpressod.Prelude.{
  ℕ, ◌+◌, ◌-◌, ◌*◌, ◌/◌, ◌^◌, ℤ, pos, negsuc, ◌+ℤ◌, ◌≡◌, ◌<◌, ◌↔◌, Option-cases, Bool, true, false,
  Option, none, some, refl, arith, inl, inr, if◌then◌else◌,
}
use openpressod.Messages.{Float}
use openpressod.Results.{
  Result, ok, err, no_pid_state, promise_already_satisfied, Done, done, ◌>>=◌,
}
use openpressod.Timer.{BrewTimer, elapsed_time}
use openpressod.ConfigMaker.Components.{Label}
use openpressod.ConfigMaker.Labels.{
  brew_temperature_controller_label, steam_preheat_temperature_controller_label,
  steam_active_temperature_controller_label,
}

-- The request's enumeration; `no_controller` is its default and every number without a name.
pub data PidSource : Type 0 where
  no_controller brew_temperature_controller : PidSource
  steam_preheat_temperature_controller steam_active_temperature_controller : PidSource

-- google.protobuf.Duration.
pub record ProtoDuration : Type 0 where
  pub seconds : ℕ
  pub nanos : ℕ

pub record PidMetrics : Type 0 where
  pub p : Float
  pub i : Float
  pub d : Float
  pub f : Float
  pub sum : Float

-- The message Metrics.
pub record MetricsMessage : Type 0 where
  pub pressure : ℤ
  pub weight : ℤ
  pub flowrate : ℤ
  pub temperature : ℤ
  pub brew_timer : ProtoDuration
  pub pid_metrics : Option PidMetrics

-- What the sensors, the brew timer, the steady clock and the terms of each controller are when one
-- message is made.
pub record MetricsReadings : Type 0 where
  pub pressure : ℤ
  pub weight : ℤ
  pub flowrate : ℤ
  pub temperature : ℤ
  pub timer : BrewTimer
  pub clock : ℕ
  pub pid_terms : Label → PidMetrics

pub data WriteStatus : Type 0 where
  idle in_progress failed : WriteStatus

-- `cancelled` tells that the promise has its value.
pub record MetricsStreamReactor : Type 0 where
  pub pid_controller_state : Option Label
  pub update_rate : ℤ
  pub cancelled : Bool
  pub write_status : WriteStatus

unfoldable pub pid_source_to_controller_label : PidSource → Option Label
pid_source_to_controller_label brew_temperature_controller = some brew_temperature_controller_label
pid_source_to_controller_label steam_preheat_temperature_controller =
    some steam_preheat_temperature_controller_label
pid_source_to_controller_label steam_active_temperature_controller =
    some steam_active_temperature_controller_label
pid_source_to_controller_label no_controller = none

-- `monitored` tells whether the cast of the controller to PidControllerState succeeds.
unfoldable pub get_pid_controller_state : (Label → Bool) → Option Label → Result (Option Label)
get_pid_controller_state monitored none = ok none
get_pid_controller_state monitored (some label) =
    if monitored label then ok (some label) else err (no_pid_state label)

-- `duration_cast` cuts the nanoseconds off.
unfoldable pub to_proto_duration : ℕ → ProtoDuration
to_proto_duration duration =
    let whole = duration / 10 ^ 9 in record { seconds = whole; nanos = duration - whole * 10 ^ 9 }

-- The constructor, before its thread runs.
unfoldable pub make : (Label → Bool) → ℤ → PidSource → Result MetricsStreamReactor
make monitored update_rate source = do
  state ← get_pid_controller_state monitored (pid_source_to_controller_label source)
  ok (record {
    pid_controller_state = state;
    update_rate = update_rate;
    cancelled = false;
    write_status = idle;
  })

unfoldable pub on_write_done : Bool → MetricsStreamReactor → MetricsStreamReactor
on_write_done good m = record m { write_status = if good then idle else failed }

-- A promise throws std::future_error when its value is set again, which the handler, of the
-- enumeration std::future_errc, does not catch.
unfoldable pub on_cancel : MetricsStreamReactor → Done × MetricsStreamReactor
on_cancel m =
    if m.cancelled
    then (err promise_already_satisfied, m)
    else (done, record m { cancelled = true })

abbrev pid_metrics_of : MetricsReadings → Option Label → Option PidMetrics
pid_metrics_of r none = none
pid_metrics_of r (some label) = some (r.pid_terms label)

-- What a pass of the worker's loop sends; the timer counts milliseconds.
unfoldable pub make_metrics : MetricsReadings → MetricsStreamReactor → MetricsMessage
make_metrics r m = record {
  pressure = r.pressure;
  weight = r.weight;
  flowrate = r.flowrate;
  temperature = r.temperature;
  brew_timer = to_proto_duration (elapsed_time r.clock r.timer * 10 ^ 6);
  pid_metrics = pid_metrics_of r m.pid_controller_state;
}

abbrev seconds_to_nanoseconds : ℤ → ℤ
seconds_to_nanoseconds (pos n) = pos (10 ^ 9 * n)
seconds_to_nanoseconds (negsuc n) = negsuc (10 ^ 9 * n + 999999999)

-- `metrics` of the service: the request's update rate is `seconds` and `nanos`; no reactor stands for
-- the null pointer.
unfoldable pub metrics :
    (Label → Bool) → (seconds nanos : ℤ) → PidSource → Option MetricsStreamReactor
metrics monitored seconds nanos source =
    elim (make monitored (seconds_to_nanoseconds seconds +ℤ nanos) source) [
      | ok m ↦ some m
      | err e ↦ none
    ]

-- The number of seconds and nanoseconds of a duration say exactly how long it is, and the nanoseconds
-- are less than a second, so they fit in their 32 bits.
to_proto_duration-exact :
    (duration : ℕ)
    → let sent = to_proto_duration duration in
      (sent.seconds * 10 ^ 9 + sent.nanos ≡ duration) × (sent.nanos < 10 ^ 9)
unfolding to_proto_duration
to_proto_duration-exact duration = (omega arith, omega arith)

-- The terms in a message: those of the controller that the source names, or none.
abbrev TermsAre : Option Label → MetricsReadings → Option PidMetrics → Type 0
TermsAre none r terms = terms ≡ none
TermsAre (some label) r terms = terms ≡ some (r.pid_terms label)

-- What a message tells about a reading: each sensor's value in its field, a brew time that is exactly
-- the timer's with less than a second of nanoseconds, and the terms of the source's controller.
abbrev pub Tells : Option Label → MetricsReadings → MetricsMessage → Type 0
Tells source r sent =
    (sent.pressure ≡ r.pressure)
    × (sent.weight ≡ r.weight)
    × (sent.flowrate ≡ r.flowrate)
    × (sent.temperature ≡ r.temperature)
    × (sent.brew_timer.seconds * 10 ^ 9 + sent.brew_timer.nanos
        ≡ elapsed_time r.clock r.timer * 10 ^ 6)
    × (sent.brew_timer.nanos < 10 ^ 9)
    × TermsAre source r sent.pid_metrics

pid_metrics_of-TermsAre :
    (r : MetricsReadings) (source : Option Label) → TermsAre source r (pid_metrics_of r source)
pid_metrics_of-TermsAre r none = refl
pid_metrics_of-TermsAre r (some label) = refl

pub make_metrics-Tells :
    (r : MetricsReadings) (m : MetricsStreamReactor)
    → Tells m.pid_controller_state r (make_metrics r m)
unfolding make_metrics
make_metrics-Tells r m =
    let exact = to_proto_duration-exact (elapsed_time r.clock r.timer * 10 ^ 6) in
    (refl, refl, refl, refl, exact.0, exact.1, pid_metrics_of-TermsAre r m.pid_controller_state)

-- A request for metrics gets no stream if and only if its source names a controller whose state is
-- not monitored; a stream that it gets reports the controller that the source names, or none.
pub metrics-none_iff :
    (monitored : Label → Bool) (seconds nanos : ℤ) (source : PidSource)
    → ((metrics monitored seconds nanos source ≡ none) ↔ (
        (label : Label) × (pid_source_to_controller_label source ≡ some label)
        × (monitored label ≡ false)))
      × ((m : MetricsStreamReactor)
          → metrics monitored seconds nanos source ≡ some m
          → m.pid_controller_state ≡ pid_source_to_controller_label source)
unfolding metrics make get_pid_controller_state
metrics-none_iff monitored seconds nanos source =
    elim (Option-cases (pid_source_to_controller_label source)) [
      | inl e ↦ ((λ h. absurd (ground arith), λ h. absurd (ground arith)), λ m h. ground arith)
      | inr (label, e) ↦ ((λ h. (label, e, ground arith), λ h. ground arith), λ m h. ground arith)
    ]
