-- ===== src/Lib.antt =====
-- Viskium: the parts of its Python package, src/viskium/, that move frames and observations, admit
-- work and guard what an agent may read.
--
-- The camera controller (capture/controller.py, class CameraController) owns a camera backend in a
-- worker thread, and offers its frames to a slot for the latest frame (capture/latest.py). Its
-- policy, streams and frames are the values of capture/contracts.py. Before it opens a camera it
-- asks the resource gate (resources/admission.py), which decides by the budget policy
-- (resources/budget.py). Observations that are made of frames go to a store through a writer thread
-- with a bounded queue (storage/writer.py). A store is an SQLite file (storage/sqlite_store.py) or a
-- list in memory (adapters/memory_store.py), and its documents are canonical JSON
-- (core/serialization.py). Readers take the latest observation of a slot, if it is fresh
-- (observations/latest.py), and a snapshot is a frame that a broker hands to the one request that
-- waits for it (snapshots/broker.py). An agent's reads are allowed by a grant
-- (agent/contracts.py), which a ledger keeps in a file with the use that was made of it
-- (agent/consent.py).
--
-- Files, with the code that they model:
--   * Core/Envelope, Core/Receipt: the fields of core/contracts.py. Core/Value: Python values as a
--     validator sees them, what it raises, and the integer, float and text checks.
--   * Capture/Contracts, with Policy, Frames and Checks: capture/contracts.py.
--   * Capture/Slot, with Trace and Waiting: capture/latest.py. A call is one step under the slot's
--     lock; `take` is given what the clock and the other threads do at each turn of its loop.
--   * Capture/Controller: capture/controller.py. State has the fields, the sections that
--     `start` and `stop` run, and what other threads do (`act`). World has the worker's monad:
--     a program over a world, where each critical section, each read of the stop event and each
--     answer of the backend, the lease, the gate or the clock is one moment, before which the
--     other threads act as an `Env` says. Backend, Offer and Stream are the methods in the
--     order of the source, Open and Run the two parts of `_run`, which is `run`. Triples has
--     rules on programs, Protocol an automaton over what was done to the camera, Quiet and
--     Stays steps that keep a view of the world, Stuck the steps of a worker whose controller is
--     STUCK, and Lifecycle and Run/Stuck the results.
--   * Storage/Writer: storage/writer.py. State has the fields, Calls the critical sections of
--     `start`, `submit` and `stop`, Worker those of `_run`, and System an execution as a list of
--     events. Invariant and the files beside it have the results.
--   * Core/Serialization: core/serialization.py. Document has the documents of observations, Size
--     and Order the results.
--   * Observations/Latest: observations/latest.py. Arguments has the checks of `read`, and Read the
--     rest of it, which is given the clock and the other threads' calls at each turn of its loop.
--   * Storage/Sqlite: storage/sqlite_store.py. Database has the tables, the transactions and
--     how statements fail, Statements the SQL, Store the fields and the handlers of errors,
--     Checks what comes before the transaction of `put`, Put and Purge the methods, Opening the
--     constructor, and Runs the calls of an owner in turn. Sound and the files Steps, Effect
--     and Kept have the results.
--   * Storage/Memory: adapters/memory_store.py. Log is what the store promises; Append and
--     Refinement compare the two. The equality of observations, and whether the encoder raises on
--     one, are parameters, of which nothing is assumed.
--   * Snapshots/Broker: snapshots/broker.py, in any interleaving of its callers; a turn of the loop
--     of `request` is given whether its deadline has passed.
--   * Resources/Budget and Resources/Admission: resources/budget.py, resources/admission.py.
--   * Agent/Grants: `ConsentGrant` and `evaluate_grant` of agent/contracts.py. Agent/Ledger:
--     agent/consent.py, over a file that holds a state, is missing or cannot be decoded, where
--     locks, writes and unlinks may fail as a `Weather` says.
--
-- Fuel: the loops of the controller's worker are cut after the turns that `run` is given, since a
-- camera may stream for ever. The statements on it hold for every fuel; those on its end are
-- about the runs that end. The loop of `take` is structural in its turns, and the writer's
-- executions are lists of events.
--
-- Integers that Python does not bound are natural numbers; the checks of a validator against
-- negative numbers are on `Value`, and the ceilings of signed 64-bit integers are written out.
-- Subtractions stop at zero where the source takes the maximum with zero, or where a comparison
-- before them shows that they do not.
--
-- SQLite itself is modelled by what its documentation says of the statements that the store uses:
-- a transaction sees its own changes, a commit makes them the committed tables at once, a
-- statement that fails changes nothing and may end the transaction. A list of faults says which
-- statements fail, and with which code.
--
-- The texts of an envelope are sequences of Unicode scalar values, and its values are finite trees.
-- Python's encoder raises on what is left out of these, a lone surrogate or a nesting beyond the limit
-- on recursion. Whether it raises on an observation is a parameter of the `put` of both
-- stores, of which nothing is assumed. SHA-256 is a parameter.
--
-- Not modelled: the text of other files, paths, processes and sockets; the path and the settings
-- of an SQLite connection and the queries of its rows, the runtimes, the agent service, the
-- command line and the camera drivers. A store, a backend, a lease, a sampler and a clock are
-- parameters, of which nothing is assumed.
pub mod Prelude
pub mod Core
pub mod Storage
pub mod Capture
pub mod Resources
pub mod Snapshots
pub mod Agent
pub mod Observations
