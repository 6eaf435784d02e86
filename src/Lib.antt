-- ===== src/Lib.antt =====
-- Verification library of meepo, an agent runtime: the event ledger and its recovery, the turn loop, and
-- the host's protocol.
--
-- An agent's turn is a stream of session events of a backend. The runner (crates/meepo-runtime/src/
-- runner.rs) compacts the history, drives the stream, and maps each session event to a runtime event; the
-- session (session.rs) appends those to the ledger (crates/meepo-core/src/store.rs) and makes the terminal
-- event durable. On resume the ledger is scanned (crates/meepo-core/src/tool_ledger_scanner.rs),
-- classified (crates/meepo-runtime/src/recovery.rs) and projected to a conversation (projection.rs).
-- Before a tool runs, the permission gate (crates/meepo-core/src/interaction.rs) asks the policy
-- (permission.rs) and, where that says so, the user. The host serves sessions over framed connections
-- (crates/meepo-host/src): a client's version is negotiated, its requests are dispatched and answered,
-- frames leave through a bounded outbound queue, and permission prompts wait in the interaction hub. A
-- turn is admitted by the turn coordinator, which extends the durable admission chain; its events reach
-- the subscribers through the continuity coordinator. The SQLite store (crates/meepo-storage/src/lib.rs)
-- keeps the events, the session catalog, the admissions, the permissions and the continuation claims. A
-- headless run (crates/meepo-headless/src/lib.rs) repeats turns of fresh sessions until a gate is content.
-- The bash tool's commands are wrapped by the sandbox (crates/meepo-sandbox/src).
--
-- Files and code:
--   Prelude: shared names, lists, dictionaries, texts and results, with their lemmas.
--   Core: meepo-core's types, by file (Event, Fact, SessionEvent, Chat, Decision), the store (Store),
--     the permission policy (Permission for permission.rs, with the shell commands in Permission/Shell) and
--     the gate (Interaction for interaction.rs).
--   Ledger: tool_ledger_scanner.rs. `scan_event` is the body of the scan's loop, `on_call`, `on_dispatch`,
--     `on_recovery` and `on_response` the arms of its match; `none` stands for an index out of range.
--     Ledger/Invariant states what the scan maintains, and Ledger/Arms shows it arm by arm.
--   Recovery: recovery.rs, function by function.
--   Runtime: meepo-runtime's modules Mapping (map_session_event.rs), Compaction, Projection, Checkpoint,
--     Runner and Session, each with child modules for its theorems.
--   Storage: crates/meepo-storage/src/lib.rs. Storage.antt holds the rows, Table the SQL statements, and
--     Events, Catalog, Admissions, Interactions, Claims and Operations the methods, by table.
--   Headless: crates/meepo-headless/src/lib.rs. `attempt_loop` is the loop of `run_task`, and
--     `TaskRunStoreLaws` what its store promises.
--   Sandbox: meepo-sandbox (profile.rs, manager.rs), with Seatbelt for macos.rs, whose two constant sections
--     of a policy are parameters.
--   Host: meepo-host's modules Handshake (protocol/handshake.rs), Wire (protocol/codec.rs, envelope.rs,
--     errors.rs), Outbound (transport/outbound.rs), Connection (server/connection.rs, dispatcher.rs),
--     Continuity (continuity/), Turns (server/turn/coordinator.rs), InteractionHub
--     (server/interaction.rs) and Requests (handlers/).
--   Examples: sample data, and each theorem at a concrete input.
--
-- Conventions. `serde_json::Value` is a type parameter `V` (`F` for the frames of the queue). A backend is
-- the record `AgentBackend`, its stream the list of its events; a stop request only changes which list that
-- is. A ledger store is the record `RuntimeEventStore`, which the in-memory store fills. A panic or a
-- failed assertion is `none`, a result's error is `err`. SHA-256, the canonical JSON of an event, the
-- matching of a regular expression, the JSON of an answer and the length of a serialized frame are
-- parameters. Timestamps are integers; counts are native numbers, and the outbound queue's sum of bytes
-- wraps around at 2 ^ 64. A printed number has no more digits than its
-- successor, which is the fuel of `show`; `strip_leading_options` takes as much fuel as the text has
-- characters, and each round takes one at least; `normalize_segment_head` has the source's five rounds.
-- A hash map is an association list, and an iteration over one goes in the order of insertion: the read of a
-- session sorts what it gathers, so that order shows only between events with one id.
--
-- Concurrency. The outbound queue's callers and its drain task are critical sections, run in any order by
-- `run_schedule`; the task's loop is cut where it releases its lock or awaits, and the `Notify` is its one
-- permit. The interaction hub's critical sections are functions, and its operations run them in a row. The
-- continuity coordinator's operations and the moves of the receivers follow one another in any order
-- (`run_actions`); the channel between them is the record `Channel` with the laws `ChannelLaws`. A call of
-- `begin_turn` is also cut at its awaits (`advance`), so that two calls interleave.
--
-- The database. A table is the list of its rows in the order of their rowids. A statement has its SQL
-- meaning, with the constraints of the schema written out; rows that ORDER BY does not tell apart come in
-- the order of the table. An operation fails where a constraint is broken or a value does not serialize;
-- failures of the engine are left out. Sequence numbers, revisions and the counters of a snapshot are
-- numbers that no run exhausts.
--
-- Not modelled: the typed operations of the host, its processes, sockets and
-- registration file, tools, model providers and the command line. The tasks that drain a turn and
-- that forward the frames of a subscription are modelled by what they do to the coordinators.
-- Serialization is serde's, the channel is tokio's and the engine is SQLite's; none is code of this
-- repository.
pub mod Prelude
pub mod Core
pub mod Ledger
pub mod Recovery
pub mod Runtime
pub mod Storage
pub mod Headless
pub mod Sandbox
pub mod Host
pub mod Examples
