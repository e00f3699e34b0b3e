-- ===== src/Lib.antt =====
-- PrinterHMI Remote: the enrollment of a printer's agent, its transport to a relay, the relay's
-- receiver and its configuration, and the agent's own service, from src/printerhmi_agent.
--
-- The agent keeps an identity with a signing key in its enrollment directory. A peer is enrolled
-- with a pairing code, locally or through a relay whose challenge it answers. An enrolled agent
-- opens a session with the relay: it says hello, signs the relay's challenge, sends one filtered
-- snapshot, and takes the acknowledgement. The relay's receiver verifies all of this, and keeps
-- the latest snapshot of each device in a registry that it shows on a local socket. The relay's
-- owner keeps its keys, its enrolled devices and its pending challenges in a directory, which one
-- manager changes. On the agent's side a service follows the printers, keeps their latest
-- snapshots in a store and a file, and shows them on a local socket, from where a worker relays
-- them.
--
-- Prelude: what all parts share. Prelude.Errors holds the exceptions as values, Prelude.Int the
--   integers of documents, Prelude.Tests the Boolean tests on numbers.
-- Action: methods that mutate a store and may raise; what was written before a raise stays
--   written.
-- Json, Dict: Python's documents and dictionaries. `canonical` is `_canonical` of enrollment.py
--   and relay_transport.py. A float is a whole number of millionths. `json.loads(json.dumps(d))` is
--   `d`.
-- Codec: base64, timestamps and the identifier patterns.
-- Platform: the cryptography package, hashes, `datetime`, Unicode case, `json.loads` and the
--   printing of floats are a parameter. Its laws, which some theorems assume, are in `IsSound`.
--   Instants are whole microseconds since the first one of `datetime`.
-- Enrollment: enrollment.py. `Disk` is the enrollment directory: the identity, the state and the
--   audit trail. Each method of `EnrollmentStore` holds the lock throughout, so it is one step; it
--   reads the clock once, and its random values come in a `Draw`. The files are typed: of content
--   that the program did not write, only the checks of the stored key are modelled. File modes and
--   fsync are left out.
-- Transport: relay_transport.py. `Link` is one connection: what will be read, how many writes go
--   well, and what was written. The store of `send_with_retries` is any store, its sends any action.
--   Delays are microseconds. The loop over the attempts is recursion on their number. Doubling a
--   float overflows after 1024 retries, as in Python.
-- Registry: relay_registry.py. Each method is one step under the lock. Writing the state file may
--   fail.
-- Receiver: relay_receiver.py. `handle_agent` is a whole session; its locals stand in the store,
--   so that the `finally` block sees what they were when an exception was raised. Sessions that run
--   at the same time are not interleaved. Sockets, servers and TLS contexts are left out.
-- Configuration: relay_configuration.py. `Directory` is the directory of
--   RelayConfigurationManager; each operation holds the lock, so it is one step, which reads the
--   clock once. A document is written with its keys in their own order, not sorted. A JSON file that
--   is missing or no JSON is `none`; one that is not UTF-8 is left out. A write fails when none is
--   left, which stands for a full disk. The certificates are drawn, as what the x509 package
--   returns.
-- Service.Telemetry, Service.Monitor: telemetry.py and monitor.py, over the list of the frames
--   that arrive until Moonraker closes. Deep copies are the values themselves.
-- Service.Store: SnapshotStore of service.py. Updates, flushes and the waking of the flush task
--   are events, each with the time of the loop; the lock makes each of them one step.
-- Service.Forever: a pass of monitor_forever of service.py, from the snapshots that a stream
--   yields.
-- Service.LocalApi, Service.Worker: api.py and relay_worker.py, the worker over any sender of
--   snapshots, with a list of rounds in place of its endless loop.
-- Service.Catalog: moonraker.py, catalog.py, model.py, and the choice of sockets in discovery.py.
-- Service.Diagnostics, Service.Simulator: the report of diagnostics.py, with the host's parts as
--   given, and a session of relay_simulator.py.
-- CommandLine: the commands of cli.py on the enrollment store and the local interface, and their
--   exit statuses.
-- Tests: a platform that satisfies the laws, and runs of the theorems on concrete inputs.
--
-- Not modelled: errors of `json.loads` other than JSONDecodeError and UnicodeDecodeError, for
-- numbers with too many digits or too deep a document; relay_integration.py, a self-test of the
-- parts above; the parsing of arguments and the printing of cli.py and of every `main`; the
-- host's summaries in diagnostics.py; sockets, servers and time limits; file modes, fsync and
-- temporary files.
pub mod Prelude
pub mod Json
pub mod Dict
pub mod Codec
pub mod Platform
pub mod Action
pub mod Enrollment
pub mod Transport
pub mod Registry
pub mod Receiver
pub mod Tests
pub mod Configuration
pub mod Service
pub mod CommandLine
