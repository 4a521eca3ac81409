-- ===== src/Lib.antt =====
-- The Python Agent of the reconfigurable optical switch simulator (agent/python/ocs_agent), and the
-- theorems that make it correct.
--
-- The Agent keeps the desired state of an optical circuit switch: a set of point-to-point connections
-- between 2 to 8 ports, or Debug Mode, in which every port reaches every other. Clients that hold the
-- control lease write to it; the Agent programs a device through a backend, reads the device back,
-- recovers it on demand and reports on both. The parts and their files:
--
-- Prelude, Value: shared helpers; the values of JSON requests and YAML files.
-- Errors, Exec: errors.py and the exceptions of backends/base.py as a result type, and methods that
--   write to a state and may raise. What was written before a raise stays written.
-- Inventory, Connection, ConnectionSet, PairSet: model.py. The ordered dict of a ConnectionSet is the
--   list of its values, its `_occupied` an association list, a Python set of pairs a list on which
--   only membership counts. Inventory/Slot is the regular expression for port names.
-- Lease: the lease methods of core.py (`acquire_control`, `renew_control`, `release_control`,
--   `_require_lease_locked`, `_expire_lease_locked`).
-- Backend: backends/base.py and the interface that the Agent uses of a backend; Backend/Laws is the
--   contract that the Agent relies on.
-- Transition, P4app, Bfrt: backends/p4app.py and backends/bfrt.py. The switch object and the BF Runtime
--   client are parameters (`Switch`, `Client`), since their code is not part of the repository. The
--   two plans of `apply`, FULL and DELTA, are in Transition. P4app/Decode reads the rows of a table.
--   p4app.py does not import `time`, so the pause of its `apply` raises. P4app/Rows, P4app/Readback,
--   P4app/Contract, P4app/Working, P4app/Success, Bfrt/Readback, Bfrt/Keeps and Bfrt/Contract hold
--   proofs.
-- Execution: `DedicatedThreadBackend` of execution.py. Its executor, of the standard library, is a queue
--   that one thread works off; requests, work and `close` are events in any order. Execution/Laws
--   holds proofs.
-- Agent: `OcsAgent` of core.py. Agent/State is its state and its small helpers, Agent/Write is
--   `_apply_target_locked`, Agent/ModeSwitch is `set_mode`, Agent/Requests the requests that compute a
--   target, Agent/Recovery `recover_device_state`, Agent/Reconcile `reconcile_device_state`,
--   Agent/Control the lease and read methods, Agent/Startup the constructor, Agent/Run the sequences
--   of requests. Agent/Guards, Agent/Keeps, Agent/Outcome, Agent/Refused, Agent/Switched, Agent/Locked and
--   Agent/Sync hold proofs.
-- Worker: `DeviceBackendService` of device_worker.py, which keeps a cache of the device for an Agent in
--   another process. Worker/State is its state and its messages, Worker/Apply `ApplyTransition`,
--   Worker/Recover `Reconcile` and `Recover`, Worker/Run the sequences of calls. Worker/Sync,
--   Worker/Outcome and Worker/Fencing hold proofs. It is generic in the backend, as the Agent is.
-- Http: nbi/http.py. Http/Message is what a request carries and how it is read, Http/Handler `do_GET`
--   and `do_POST` with the status codes, Http/Session the sequences of requests. A handler calls the
--   Agent once or twice; what other threads do between two calls is an argument, a list of requests.
--   Http/Reaches, Http/Holds, Http/Bounds, Http/Rejects and Http/Outcome hold proofs.
-- Files: profile.py and config.py, from the parsed files on. Files/Objects is what both use of a parsed
--   object, and the record `Process` of the files, the parsers and the environment; Files/Model is
--   `load_model`, Files/Capabilities `load_capability_profile`, Files/Deployment, Files/Endpoints
--   and Files/Config `load_agent_config`. Files/Ensures, Files/Laws, Files/Open, Files/Accepted,
--   Files/Unique and Files/Indexed hold proofs.
-- Examples: runs over a small device.
--
-- The Agent serializes its methods by one lock, so a life of the Agent is a sequence of requests, each
-- with the clock readings that it takes; the background reconcile loop is a source of such requests.
-- All loops run over finite lists, so no definition needs fuel.
--
-- Not modelled: measured durations (the timing dict keeps its counts and labels), the details dicts
-- of errors, the rendering of messages (a template with its arguments), floats of seconds (whole
-- nanoseconds here; NaN and the infinities, which Python's JSON parser takes, are no values here),
-- the loading of the SDE and the session with its server, `close` of the Agent and of the backends,
-- the diagnostics of execution.py, sockets, servers, and the texts of JSON and YAML (parsed values
-- here).
-- `pairs_of` reads the pairs of a set whose `directed_pairs` raises as empty.
pub mod Prelude
pub mod Value
pub mod Errors
pub mod Exec
pub mod Modes
pub mod PairSet
pub mod Inventory
pub mod Connection
pub mod ConnectionSet
pub mod Backend
pub mod Lease
pub mod Transition
pub mod P4app
pub mod Bfrt
pub mod Execution
pub mod Agent
pub mod Worker
pub mod Http
pub mod Files
pub mod Examples
