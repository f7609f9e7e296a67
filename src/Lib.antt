-- ===== src/Lib.antt =====
-- openpressod, the daemon of an espresso machine: a library of its core logic and of what makes it
-- correct.
--
-- The daemon stands on libopenpresso, which drives the hardware, and serves clients over gRPC. The
-- state manager owns the heaters, the brew profiler and the brew timer; the status manager watches
-- the boiler and shows its state on the LEDs; two managers keep the brew profile and the user
-- settings in files. The dispatcher runs every request, from the buttons, from the service and from
-- the callbacks of the other parts, as a procedure on one thread, the serial executor, and pushes
-- events to the subscribers' streams, each of which has a queue and a worker thread of its own. A
-- metrics stream reads the sensors by itself, at its client's rate. When it starts, the daemon makes
-- the description of the machine from its configuration file, gets the components from
-- libopenpresso, and loads the profile and the settings.
--
-- Files, with the code they are about (paths from the repository's root):
--   Prelude     shared names, tests on numbers, integers, lengths of lists; Prelude/Floats is the
--               rounding of binary32 numbers
--   Messages    the protobuf messages, as far as the code uses them; the open enums keep the values
--               that no version of the code knows (`unrecognized`), and a float is its bit pattern
--   Core        libopenpresso as a record of the operations that the code calls, with their laws,
--               and what a call reads (temperature, update rate of the sensor, clock); Core/Sample
--               is one such library
--   Results     exceptions as values
--   Timer       src/state_manager/brew_timer.{hpp,cpp}; Timer/Stopwatch is the specification,
--               Timer/Refinement, Timer/Running and Timer/Wrap the proofs
--   Leds        src/leds/leds_handler.{hpp,cpp}
--   Status      src/state_manager/status_manager.{hpp,cpp}; Status/Registered, Status/Consistent,
--               Status/Publishing, Status/Required and Status/Hysteresis the proofs
--   Machine     src/state_manager/state_manager.{hpp,cpp}; Machine/Safety, Machine/Reach,
--               Machine/Behaviour, Machine/Modes, Machine/Publishing and Machine/Targets the
--               proofs; Machine/Kept is the interface of what every method keeps
--   Files       a file, how a write to it can go, and the JSON functions as parameters
--   Profiles    src/state_manager/brew_profile_manager.{hpp,cpp}; Profiles/Valid,
--               Profiles/Converts and Profiles/Apply the proofs
--   Settings    src/state_manager/user_settings_manager.{hpp,cpp}
--   Reactor     src/service/events_stream_reactor.{hpp,cpp}; Reactor/Worker is the step relation of
--               the threads, Reactor/Worker/Order, Wakeup, Race, Ends and Finishing the proofs
--   Dispatcher  src/async_events_dispatcher/async_events_dispatcher.{hpp,cpp}; Dispatcher/View is
--               what a subscriber knows, Dispatcher/Kept what holds of the machine under it,
--               Dispatcher/Knowledge what a procedure does not announce, and
--               Dispatcher/Sync, Dispatcher/BrewSync, Dispatcher/Heater and Dispatcher/Settled the
--               proofs
--   Executor    src/async_events_dispatcher/procedures_serial_executor.hpp; Executor/Serial,
--               Executor/Pending and Executor/Shutdown the proofs
--   Buttons     src/buttons/buttons_callback_registrator.cpp; Buttons/Power the proofs
--   Metrics     src/service/metrics_stream_reactor.{hpp,cpp}; Metrics/Worker is the step relation,
--               Metrics/Stop and Metrics/Sound the proofs
--   Service     src/service/openppressod_service_impl.{hpp,cpp}; Service/Replies the proofs
--   Config      src/config/openpressod_config.{hpp,cpp} and config_defaults.hpp, by the sections of the
--               file: Config/System, Config/Panel, Config/Sensors and Config/Boiler; Config/Constants
--               has the defaults of the code, Config/Defaults the manual's list of them, and
--               Config/Sample is a file with the required keys only
--   ConfigMaker src/config/libopenpresso_config_maker.{hpp,cpp}; ConfigMaker/Labels the labels,
--               ConfigMaker/Components the description that libopenpresso takes,
--               ConfigMaker/Clients what the daemon's classes ask for; ConfigMaker/Wiring,
--               ConfigMaker/WellTyped and ConfigMaker/Complete the proofs
--   Daemon      src/daemon/daemon.cpp; Daemon/Start is the constructor, with buildServer of
--               src/service/service_manager.cpp; Daemon/Boot, Daemon/Starts and Daemon/Started the
--               proofs
--   System      the running daemon: procedures, sensor readings and moves of the brew profiler in any
--               order; System/Safe the proofs. System/Threads is the dispatcher with its executor:
--               callers, the status callback and the worker in any order, up to the end of the
--               dispatcher and of its executor; System/Threads/Alone is the worker on its own,
--               System/Threads/Jobs, Told, OneJob, Sound, Steps, Known and Closing the proofs
--   Main        src/main.cpp and src/signals_handler/signals_handler.cpp; Main/Ends the proofs
--   Tests       each theorem at a concrete input
--
-- Names are those of the code in snake case: `StateManager::setPowerState` is `set_power_state` of
-- Machine. A method takes its arguments and its object and returns the object afterwards, with a
-- result before it if it can throw: what was changed before a throw stays changed.
--
-- Bounds and fuel: the word of the brew timer has 32 bits, the sizes of the two queues 64, and both
-- wrap; integers of the machine's units are unbounded. Rounding to `float` runs on fuel, 200 halvings,
-- which is enough for numbers below 2^74, and the library's 64-bit counts of milliseconds are less. The worker of the executor runs on fuel, as
-- many rounds as there are procedures left and two more, which is enough. With the dispatcher it
-- gets two rounds for each job that waits and two more, which is enough for the job that the
-- dispatcher's destructor waits for.
--
-- Parameters: libopenpresso, protobuf's JSON functions, toml11, magic_enum, CLI11, std::signal and the
-- levels of spdlog are arguments. A description of the machine that libopenpresso would be given is a
-- value here, and `getCore`, which turns it into components, may throw.
--
-- Not modelled: log messages; parsing TOML and the command line; gRPC's server, and the end of a
-- stream's reactor (OnDone), which joins a thread and frees the object; the unregistering of callbacks
-- in the destructors of the buttons and of the dispatcher.
pub mod Prelude
pub mod Messages
pub mod Core
pub mod Results
pub mod Timer
pub mod Leds
pub mod Status
pub mod Machine
pub mod Files
pub mod Profiles
pub mod Settings
pub mod Reactor
pub mod Dispatcher
pub mod Executor
pub mod Buttons
pub mod Metrics
pub mod Service
pub mod Config
pub mod ConfigMaker
pub mod Daemon
pub mod System
pub mod Main
pub mod Tests
