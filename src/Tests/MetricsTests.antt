-- ===== src/Tests/MetricsTests.antt =====
-- The metrics stream.
use openpressod.Prelude.{
  ℕ, ◌+◌, ◌*◌, ◌^◌, ◌≤◌, ◌<◌, pos, Bool, true, false, ◌&&◌, Option, none, some, [], length, ◌≡◌,
  ◌≢◌, ◌↔◌, ◌⊎◌, refl, arith,
}
use openpressod.Metrics.{
  PidSource, MetricsReadings, MetricsStreamReactor, WriteStatus, metrics,
  pid_source_to_controller_label, make, get_pid_controller_state, on_cancel,
}
use openpressod.Metrics.Worker.{
  Stage, MetricsStream, open_stream, start_write, cancel, write_done, Run, Step, here, next, writes,
  confirms,
}
use openpressod.Metrics.Stop.{Run-stops}
use openpressod.Metrics.Sound.{IsSound, Run-IsSound}

abbrev reading : MetricsReadings
reading = record {
  pressure = pos 9000;
  weight = pos 18000;
  flowrate = pos 1500;
  temperature = pos 93000;
  timer = record { state = 12345 };
  clock = 50000;
  pid_terms = λ l. record { p = 1; i = 2; d = 3; f = 4; sum = 10 };
}

abbrev monitored_reactor : MetricsStreamReactor
monitored_reactor = record {
  pid_controller_state = some "brew_temperature_controller";
  update_rate = pos 500000000;
  cancelled = false;
  write_status = WriteStatus.idle;
}

abbrev source : PidSource
source = PidSource.brew_temperature_controller

abbrev opened : MetricsStream
opened = open_stream monitored_reactor

monitored-opens : metrics (λ l. true) (pos 0) (pos 500000000) source ≡ some monitored_reactor
unfolding metrics make get_pid_controller_state pid_source_to_controller_label
    openpressod.Prelude.Int.◌+ℤ◌
monitored-opens = refl

abbrev in_flight : MetricsStream
in_flight = start_write reading opened

writes_first : Run opened 1 in_flight
unfolding open_stream
writes_first = next here (writes reading refl)

Run-IsSound_example : IsSound (pid_source_to_controller_label source) in_flight
Run-IsSound_example =
    Run-IsSound (λ l. true) (pos 0) (pos 500000000) source monitored_reactor in_flight 1
      monitored-opens writes_first

abbrev cancelled_stream : MetricsStream
cancelled_stream = cancel in_flight

confirmed : Run cancelled_stream 1 (write_done true cancelled_stream)
unfolding cancel start_write on_cancel open_stream
confirmed = next here (confirms true refl refl)

is_cancelled : cancelled_stream.reactor.cancelled ≡ true
unfolding cancel start_write on_cancel open_stream
is_cancelled = refl

Run-stops_example :
    let t = write_done true cancelled_stream in
    (1 ≤ 4)
    × (length t.started ≤ length cancelled_stream.started + 1)
    × ((t.stage ≡ Stage.finished) ⊎ ((u : MetricsStream) × Step t u))
Run-stops_example =
    Run-stops reading cancelled_stream (write_done true cancelled_stream) 1 is_cancelled confirmed
