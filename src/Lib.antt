-- ===== src/Lib.antt =====
-- Verification of the voice runtime (backend/src): the actor of one call and the parts it drives.
--
-- A phone call is served by one coordinator (backend/src/voice_runtime/coordinator.py). It is given
-- envelopes: the caller's speech starts and stops, the audio of a turn is committed, a transcript
-- arrives, the realtime model asks for a specialist, a voice completes or fails. It answers with
-- output events that start and cancel voices and generations. On the way it drives
--   * the turn manager (voice_runtime/turn_manager.py): Turns, and Turns/Trace for whole runs;
--   * the agent machine (voice_runtime/agent_fsm.py): Fsm, with its table in Fsm/Table;
--   * the runtime state (voice_runtime/state.py): Runtime;
--   * the conversation buffer (voice_runtime/conversation_buffer.py): Buffer, with what an
--     agent's text changes in Buffer/Written;
--   * the router's prompt (routing/model_router.py): Router, with the dataclasses in Router/Config,
--     the parsing of the model's function call in Router/Action and of the configuration in
--     Router/Load;
--   * the tool executor (voice_runtime/tool_executor.py): Tools;
--   * the specialists (voice_runtime/specialist_tools.py): Specialist, its texts in
--     Specialist/Prompts and its registration with the executor in Tools/Specialists.
--
-- Its envelopes come from, and its voices go to, the bridge
-- (voice_runtime/realtime_event_bridge.py): Bridge. The bridge keeps the WebSocket of the browser,
-- which forwards the provider's events, and the one voice under way; Bridge/Messages has what passes
-- over the WebSocket, Bridge/Transcript the cleaning of a transcript, whose regular expression is
-- a relation in Transcript/Leaks. A method of the bridge is a
-- function of the same name, and a case of _translate_event is a function on_... of its own; what it
-- sends is the list `sent`. Bridge/Playback has the specification of the bridge, Bridge/Responses,
-- Bridge/Routes and Bridge/Overlap are about whole responses. A call's session (api/routes/calls.py)
-- is Calls: the wiring of create_call, the frames of events_ws, and `run`, which feeds any sequence
-- of happenings to a session. Calls/Parts takes a session apart into its actors, with what
-- passes between them in Parts/Linked; Calls/Committed and
-- Calls/DirectTurn follow the end of a turn and a response through all of it, and Calls/Sessions has
-- the endpoints over the sessions in memory.
--
-- Repositories has the tables behind the coordinator's writes
-- (infrastructure/repositories/pg_turn.py, pg_agent_generation.py and pg_voice_generation.py) and
-- those of calls and tool executions (pg_call.py and pg_tool_execution.py), one child for each, over
-- an interface of a table with a primary key in Repositories/Table; Repositories/Json has what they
-- use of JSON, and Repositories/Writes performs the coordinator's writes. Repositories/Schema has the
-- tables of the migration (alembic/versions/9ec54cec5c1d_create_core_tables.py): Schema/Cells has the
-- statements as columns with values and what a table takes, Schema/Accepted holds the coordinator's
-- writes against it, and Schema/Orphans is about foreign keys, over an interface of a database that
-- keeps them. Redis has the set and the map of infrastructure/redis_client.py, over an interface of
-- Redis whose operations are told the time; Redis/Seen puts the set behind the coordinator's
-- duplicates. SessionRegistry has the hashes of infrastructure/session_registry.py, over an interface
-- of hashes that expire.
--
-- App is the start of the application (main.py) as steps that set a state or raise, App/Started what
-- it leaves behind, App/Health the check of api/routes/health.py and App/Admin the page of one call
-- (api/routes/admin.py). Router/Policies has the policies of routing/policies.py and the fallback of
-- api/routes/calls.py. Two actors that no call uses are modelled by themselves: Bus, the queue of
-- voice_runtime/bus.py, with its order and bound in Bus/Fifo, and RealtimeClient, the stub of
-- voice_runtime/realtime_client.py, with what it reports in RealtimeClient/Reports and
-- RealtimeClient/Cancelled. In both, which task runs next is a choice from outside.
--
-- Types has the enums and messages of voice_runtime/types.py and events.py, Entities the entities of
-- domain/models/entities.py, Prelude the helpers. Tests applies the theorems at concrete inputs.
--
-- The coordinator is a tree of modules. Coordinator/Monad has its state and a monad of state passing
-- with errors: a handler that raises leaves the state as it is at that point. Coordinator/Output has
-- the private helpers (_send_debug, _emit_output, _persist_safe, _is_duplicate, the filler task),
-- Speech, Committed, Action and Voice have the handlers, and Coordinator has handle_event, the
-- constructor, and `run`, which feeds any sequence of inputs to a new call. A handler keeps the name
-- of the method without the leading underscore; a part of a handler that is a definition of its own
-- says which. What uuid4() and the clock return are functions of a counter in the state (`Env`), so
-- that a run is determined; nothing is assumed about them. Writes to the repositories, messages to
-- the debug callback and metrics are a list of effects that no handler reads. Coordinator/Coherence
-- is about what is true between two events, with one child for each handler or group of handlers,
-- Coordinator/BargeIn about the caller's interruption, Coordinator/Completion about the end of a
-- voice, Coordinator/Remembers about what is never forgotten, Coordinator/Adds about the output
-- events, which only grow, Coordinator/History about the
-- conversation's limits over a whole call, and Coordinator/Unwired about a coordinator without
-- repositories, as create_call makes it.
--
-- Parameters, for code that is elsewhere: orjson.loads (its result on the arguments of a function
-- call), the text model's HTTP exchange, the executor's cache and how its wait ends, the shared set
-- of seen ids, the draw of random.choice, what Python takes from the Unicode
-- database (the class of word characters, and str.lower), PostgreSQL's tables,
-- Redis, the provider's answer to an SDP offer, orjson on the columns and fields, the parsed YAML
-- files, the pools of the application's start, and orjson.loads on the frames, whose result a frame is.
-- Ids are numbers; an id in a payload is absent, canonical or malformed. Texts are lists of code
-- points. The bridge and the coordinator each have their own
-- counter of ids and clock readings. A response.create payload is its instructions and tools, since
-- its other fields are constants.
--
-- Every loop of the code is structural recursion on a list, so there is no fuel. Numbers have no
-- bound, as in Python; times are natural numbers, and the differences of the debug timeline are
-- integers.
--
-- The events of a call are handled one after the other, since the WebSocket loop
-- (api/routes/calls.py) awaits each. What runs beside them is the filler's timer: it may fire
-- between two events and while a routing action waits for its tool, which is one point of the model.
--
-- Two WebSockets to one session, or a deletion, meet the model between two frames only. A message of
-- the debug timeline is an effect of the coordinator and is not in the bridge's list `sent`.
--
-- Not modelled: the indexes of the migration, which constrain nothing; the list of calls and the
-- metrics page; the thresholds (routing/registry.py), which nothing reads but a log line; the
-- messages of events.py that no actor sends; the shutdown, telemetry, logging, settings, and the
-- frontend.
pub mod Prelude
pub mod Types
pub mod Fsm
pub mod Turns
pub mod Buffer
pub mod Router
pub mod Specialist
pub mod Tools
pub mod Entities
pub mod Runtime
pub mod Coordinator
pub mod Tests
pub mod Bridge
pub mod RealtimeClient
pub mod Bus
pub mod SessionRegistry
pub mod App
pub mod Calls
pub mod Repositories
pub mod Redis
