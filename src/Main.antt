-- ===== src/Main.antt =====
-- src/main.cpp and src/signals_handler/signals_handler.cpp: the life of the process. Outside the
-- repository are CLI11 (what becomes of the arguments), std::signal (which may refuse a signal),
-- toml11 (which reads the file, or throws) and libopenpresso::getCore. Signals are those that arrive
-- after their handlers have been registered.
pub mod Ends
use Prim.Native.String.{String}
use openpressod.Prelude.{ℕ, Bool, true, false, List, [], ◌∷◌, if◌then◌else◌}
use openpressod.Core.{Core, Readings}
use openpressod.Results.{Result, ok, err, Done, done, no_signal_handler, ◌>>=◌}
use openpressod.Files.{File, Json}
use openpressod.Config.{ConfigLibrary}
use openpressod.ConfigMaker.Components.{DeviceConfig}
use openpressod.Daemon.Start.{Hardware, Daemon, start}

-- SIGINT, SIGTERM and SIGHUP.
pub data Signal : Type 0 where
  interrupt terminate hang_up : Signal

-- CLI11 gives the path of the configuration; or ends the program with a code, as for `--help` and for
-- arguments that it does not know; or throws while the options are described.
pub data Arguments : Type 0 where
  config_path : String → Arguments
  exits : ℕ → Arguments
  cli_error : Arguments

-- How the process goes: it returns a code from `main`, an exception leaves `main`, or it waits for a
-- signal.
pub data Outcome : Type 0 where
  exited : ℕ → Outcome
  terminated : Outcome
  waits : Outcome

-- From sysexits.h.
abbrev pub ex_ok : ℕ
ex_ok = 0

abbrev pub ex_software : ℕ
ex_software = 70

unfoldable pub register_exit_handler : (accepts : Signal → Bool) → Signal → Done
register_exit_handler accepts signal = if accepts signal then done else err no_signal_handler

-- `SignalsHandler::init`.
unfoldable pub init : (accepts : Signal → Bool) → Done
init accepts = do
  first ← register_exit_handler accepts interrupt
  second ← register_exit_handler accepts terminate
  register_exit_handler accepts hang_up

-- The exit flag after a signal.
unfoldable pub exit_signals_handler : Signal → Bool → Bool
exit_signals_handler signal exit = true

-- The exit flag after the signals that have arrived.
unfoldable pub exit_flag : List Signal → Bool
exit_flag [] = false
exit_flag (signal ∷ l) = exit_signals_handler signal (exit_flag l)

-- The two handlers of the second `try` return the same code.
unfoldable pub serve_until_signal : {D : Type 0} → List Signal → Result D → Outcome
serve_until_signal signals (err e) = exited ex_software
serve_until_signal signals (ok daemon) = if exit_flag signals then exited ex_ok else waits

abbrev after_init : Done → Outcome → Outcome
after_init (err e) next = terminated
after_init (ok a) next = next

module _ {core : Core} (lib : ConfigLibrary) (read_file : String → Result lib.Value) where
  -- The daemon's constructor, with `OpenpressodConfig::fromFile`.
  unfoldable pub start_from_file :
      (get_core : DeviceConfig lib → Result (Hardware core))
      → Json
      → (files : String → File) → Readings
      → String
      → Result (Daemon core)
  start_from_file get_core json files r path = do
    config ← read_file path
    start lib config get_core json files r

  unfoldable pub main :
      (get_core : DeviceConfig lib → Result (Hardware core))
      → Json
      → (files : String → File) → Readings
      → Arguments
      → (accepts : Signal → Bool) → List Signal
      → Outcome
  unfolding init
  main get_core json files r (config_path path) accepts signals =
      after_init (init accepts)
        (serve_until_signal signals (start_from_file get_core json files r path))
  main get_core json files r (exits code) accepts signals = exited code
  main get_core json files r cli_error accepts signals = exited ex_software
