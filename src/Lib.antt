-- ===== src/Lib.antt =====
-- A model of psyexp_net, a library that lets a server run a psychological experiment on several
-- computers: clients register with a role, synchronise their clocks, receive the session's and the
-- trials' commands, acknowledge them and report results.
--
-- The parts, and how they interact. The server (psyexp_net/runtime/server.py) receives messages from
-- a transport in one loop, `_serve_loop`, and dispatches each by its type: it updates the registry
-- (psyexp_net/runtime/registry.py), resolves the table of pending ACKs (psyexp_net/protocol/ack.py),
-- counts metrics, queues results and answers. Its commands change the session
-- (psyexp_net/runtime/session.py), send one message to each registered client and wait for the ACKs.
-- A client (psyexp_net/runtime/client.py) receives in a loop too: it recognises duplicates, routes a
-- response to the request that waits for it, and otherwise runs the application's handlers and
-- acknowledges the command.
--
-- Which file models which part:
--   Enums, Errors              psyexp_net/enums.py, errors.py
--   Config, Config/Merge, Config/Mapping, Config/Sources  psyexp_net/config.py: the sections, the
--                              merge, `to_dict` and `from_mapping` (their sections in
--                              Config/Mapping/Sections), the file and the environment
--   Config/Overrides           the changes of a configuration by psyexp_net/cli/main.py,
--                              health/benchmark.py and health/doctor.py
--   Value, Value/Typed         what JSON carries, and the types that the classes declare; Value/Json is
--                              what json.dumps makes a text of
--   Protocol/Message           psyexp_net/protocol/message.py
--   Protocol/Codec             psyexp_net/protocol/codec.py
--   Protocol/Ack               psyexp_net/protocol/ack.py
--   Protocol/Versioning        psyexp_net/protocol/versioning.py
--   Security                   psyexp_net/security/auth.py, identity.py
--   Logging/Metrics, Logging/Recorder, Logging/Summary  psyexp_net/logging/metrics.py, recorder.py
--   Logging/Replay             psyexp_net/logging/replay.py: the timeline of a trial; in Messages that of
--                              a message, and the summary of a run
--   Timing, Timing/Rolling     psyexp_net/timing/sync.py, latency.py, jitter.py
--   Health, Health/Doctor      psyexp_net/health/monitors.py, doctor.py
--   Discovery                  psyexp_net/discovery/manual.py, zeroconf_service.py
--   Transport, Transport/Memory, Transport/Zmq  psyexp_net/transport/base.py, memory.py, zmq_lan.py; in
--                              Transport/Memory Backends has the two ends, and Network the calls of a
--                              server and several clients on one hub, in any order
--   Runtime/Session, Runtime/Registry  psyexp_net/runtime/session.py, registry.py
--   Runtime/Barrier, Runtime/Scheduler  psyexp_net/runtime/barrier.py, scheduler.py
--   Runtime/Task               the tasks of server.py and client.py, by what is seen when they are stopped
--   Runtime/Server             psyexp_net/runtime/server.py: State (the object and its clock, ids,
--                              messages sent and what the transport refuses), Register, Acks, Health, Handlers (`_handle_message`
--                              and `_serve_loop`), Commands (the public methods), Lifecycle (how a
--                              server begins and ends)
--   Runtime/Client             psyexp_net/runtime/client.py: State, Requests, Receive, Lifecycle
--   Runtime/Registration       a registration, from the client to the server and back
--   Driver                     what drives servers and clients, as the calls that it makes of them:
--                              Stack, Serving, Joining, Demo, Inspect and Main are
--                              psyexp_net/cli/main.py (Demo is examples/demo_inmemory.py too), Benchmark is
--                              psyexp_net/health/benchmark.py; Steps and Handlers are shared
--   Exec, Floats, Prelude      methods that may raise, float operations, and shared helpers
-- A function has the name of the Python method, without a leading underscore. Laws, Pending, Window,
-- Roles, Invariant, Bounds, Reading, Exchange, Precedence, Completion, Answering,
-- Delivery, Recording, Posting, Reconnect and Discovery/Lifecycle hold what is proved, and Tests the theorems at concrete inputs.
--
-- How the code is modelled. A method is a function from a state to a result and a state
-- (`Exec`): after an exception the state keeps what was written before it. Readings of the clocks
-- and new ids are taken from sequences, so every theorem holds for all of them. Floats are an
-- abstract type with the operations that the code uses, and no law is assumed of them. Texts are
-- native strings; json, base64, int() and float() are parameters. A coroutine is split where it
-- waits: `begin` is what runs up to the wait, `finish` what runs behind it. A loop runs over the
-- list of what its transport yields, so that it needs no fuel, and a theorem about all lists is one
-- about every run. The benchmark's loop over the clock runs on fuel; Driver/Benchmark/Laws says how
-- much is enough. The programs of Driver run on calls: what a call raises or answers is input, and
-- what the program then does is the model.
--
-- A send, a start or a stop of a transport raises what its object's `refuses` says, which theorems
-- leave open or restrict by a hypothesis; recording a value that holds bytes raises the TypeError of
-- json.dumps. Writing to the files of a log is taken to succeed.
--
-- What stands outside the program is a parameter or input: what pyzmq refuses and delivers and what a
-- poll finds, what zeroconf refuses and reports, the lines of a log and the readers of files, what the
-- doctor finds around it and how the server answers its probe.
--
-- Not modelled: the LSL bridge, which is a stub; the table of psyexp_net/protocol/registry.py, which
-- nothing reads; the argument parser and what is printed; when the event loop runs which task; what an
-- application's handlers do to the client. A field of a message or of a configuration that has another
-- type than its class declares is a TypeError here where Python keeps the value.
pub mod Prelude
pub mod Enums
pub mod Floats
pub mod Errors
pub mod Exec
pub mod Value
pub mod Config
pub mod Security
pub mod Protocol
pub mod Logging
pub mod Driver
pub mod Timing
pub mod Health
pub mod Transport
pub mod Discovery
pub mod Runtime
mod Tests
