-- ===== src/Lib.antt =====
-- cuddly-train: the command server of a Teensy board. A controller connects over TCP, receives the
-- board's schema, and exchanges lines of JSON with it: commands and responses, telemetry, heartbeats,
-- and e-stops in both directions. Received bytes are framed into lines, lines are parsed and routed
-- to handlers, handlers queue lines with the outbound scheduler, and the session sends one of them
-- per round through the outbound writer.
--
-- Which file models which part:
-- - Limits, Counters, Status, Protocol, Wire, Platform: src/support/Limits.h, src/core/Counters.h,
--   src/api/ServerStatus.h, src/core/Protocol.h with src/core/ErrorCodeMapping.h, the types of lines
--   and connections, and the interfaces src/core/Clock.h, src/core/Transport.h and
--   src/core/NetworkServer.h, which are records of functions on a state `W` of the world.
-- - Framer: src/core/LineFramer.h. `append_from` is the loop of `append`, `append_byte` its body.
-- - Json: src/support/BoundedJsonWriter.h. A method that returns `bool` returns it beside the new
--   state; `&&>` is the `&&` between two calls.
-- - Outbound: src/core/OutboundScheduler.h. An entry's bytes are a list, the array keeps its size.
-- - Writer: src/core/OutboundWriter.h. `send_loop` is the loop of `sendValidLine`; the teardown that
--   the writer requests through its callback is returned.
-- - Heartbeat, Estop: src/core/HeartbeatHandler.h and src/core/EstopHandler.h, with the routing of
--   outcomes from src/core/ServiceLoop.h and src/TeensyCommandServer.h.
-- - Session: src/core/SessionState.h and src/core/SessionDriver.h. `Session/Driver` has the operations
--   that call the network, the schema builder (a parameter) or the writer (the interface
--   `Session/Sender`, which the writer is shown to fill). `applyPendingTeardown` and
--   `promoteAcceptedConnection` call one another; two rounds are enough, since the first one uses up
--   the replacement.
-- - Telemetry: src/core/TelemetryScheduler.h. The line buffer is the result of the builder.
-- - Registry: src/core/CommandRegistry.h, with the specifications of src/api/CommandTypes.h. An
--   operation returns its status beside the new registry. The fixed arrays with their counts are
--   lists, and `copy_argument` is the body of the loop of `registerCommand`.
-- - Schema: src/core/SchemaBuilder.h. The line is returned beside the status; `Json/Members` says what
--   the calls that write an object's members emit.
-- - Inbound: src/core/InboundParser.h with src/api/CommandArgs.h. `Inbound/Utf8` is `isValidUtf8`; the
--   calls of the JSON library are the record `JsonLibrary`. An out-parameter is an `Option`, and the
--   arguments of a command read the parser that they are bound to.
-- - Result, Dispatch: src/api/ObjectWriter.h, src/api/CommandResult.h and src/core/CommandDispatcher.h.
--   `dispatch` is cut behind its lookup, its checks and its handler; `Dispatch/Line` builds the lines,
--   and `Dispatch/Diagnostics` is src/core/DiagnosticsCommand.h.
-- - Loop: src/core/ServiceLoop.h. The session is the interface `SessionLike`, the routes are functions
--   on everything that they can reach, and a return in the middle of `service` is a Boolean result.
--   `Loop/Engine` says what a round keeps of a session, for any routes.
-- - Facade: src/TeensyCommandServer.h with the configuration of src/api/BoardIdentity.h. `Facade` has
--   the state, `Facade/Calls` the setup, `Facade/Launch` has `start`, and `Facade/Service` the routes
--   and `service`: the session driver and the handlers fill the interfaces of the loop.
--   `identity_` points into the registry's buffers, so it is read from the registry. A facade that
--   has no network yet has the field `attached` false.
-- - Ethernet: src/platform/qnethernet. `EthernetLibrary` is what the adapters call of the Ethernet
--   library. `Ethernet/Transport` is the transport, `Ethernet/Listener` the server, which fills the
--   interface `Network`, and `Ethernet/Clock` the clock; a transport is named by its slot.
--
-- Bytes and sizes are natural numbers, counters wrap at 2^32 and times at 2^64 as in the source. The
-- loop of a send runs on fuel: it ends at the deadline of 100 ms, and a round takes a microsecond at
-- least, so 100001 rounds are enough. The loop that reads from a connection takes fuel for the bytes
-- that wait. All other loops are by structural recursion.
--
-- Not modelled: the vendored JSON library, the tests, sketches and tools. The board's handlers and
-- hooks, the calls of the JSON library and of the Ethernet library, and, but in `Ethernet`, the clock
-- and the network are parameters. A handler cannot call the facade that runs it.
pub mod Base
pub mod Limits
pub mod Counters
pub mod Framer
pub mod Wire
pub mod Json
pub mod Protocol
pub mod Outbound
pub mod Heartbeat
pub mod Platform
pub mod Status
pub mod Estop
pub mod Ethernet
pub mod Writer
pub mod Session
pub mod Telemetry
pub mod Registry
pub mod Schema
pub mod Inbound
pub mod Result
pub mod Dispatch
pub mod Loop
pub mod Facade
