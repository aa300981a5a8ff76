-- ===== src/Lib.antt =====
-- mult keeps coding agents and terminals running in a daemon, `mult-server`, to which terminal clients
-- attach over a Unix socket. This library models the protocol between them and the core of the daemon.
--
-- The parts and where they stand:
--   * crates/protocol/src/lib.rs, in Protocol: `Ids` has the session identities and the numbers that are
--     handed out, `Reject` and `Agent` the codes and the records of messages that the daemon decides
--     on, `Screen` the bounds of a screen, and `Framing` the length-prefixed frames of
--     `read_message` and `write_message`.
--   * src/bin/mult-server.rs, in Daemon:
--     `History` is `RawHistory`, the PTY output that a pane retains; `Requests` is
--     `RequestScopeState`, the journal that makes retried requests run once; `Registry` is the part of
--     `ServerState` about sessions, reservations and identities, with `record_agent_exit`;
--     `AgentStatus` is `update_agent_status` and `query_agent_status` over the registry's tables;
--     `WriteQueue` is `PtyWriteQueue` with its writer thread; `Client` is the queue of deliveries of
--     `ClientHandle`; `Pane` is the numbered output of `PaneState`, its publication and the attach
--     transaction; `Leased` is the check of a lease and the input, resize and detach handlers, input in
--     two sections, under the locks and without them; `Stop` is `handle_stop_request`, the termination
--     driver and `maybe_finalize` for one pane; `Attach` is a new attach request before its replay, and
--     the leases over a history of attaches and leased operations.
--   * src/model.rs, in Model: `Ids` is the allocator of workspace, chat and terminal numbers
--     (`take_available_id`), `Random` is `generate_identity`, `Hex` the text of
--     identities, `Data` has the data types, `State` and `Sessions` have the operations of
--     `ProjectState`, `Messages` the capped text of chat messages,
--     `Validate` is `validate_session_identities`, and `Repair` and `Identities` are
--     `normalize_next_ids` and `normalize_session_identities`. `Valid` is the invariant, `Steps` the
--     changes that operations make as a relation, `Table` the abstract map from sessions to tokens
--     with the steps that such changes are, and `Commands` runs operations one after another.
--   * src/storage.rs, in Storage: the shapes of the five versions of a state file, their migrations
--     (`Migrate`) and the load of what was decoded (`Load`). A load calls the repairs and the check of
--     Model; the daemon knows a session by the token that Model issues.
--   * src/transcript.rs, in Transcript: the journal of chat messages. `append` is the operation,
--     `open_with_recovery` reads a file back; `Lines` is the relation between records and the bytes
--     that they are written as. How a write and its sync end is an argument of `append`. The JSON
--     encoding of a record is a parameter, with the laws that an encoding is decoded, is not empty and
--     has no line feed.
--   * Base has the helpers: Boolean tests, lists, maps whose order is not observed (`Map`), ordered maps
--     and sets (`OrdMap`, `OrdSet`), searches of a slice (`Find`), pieces of a list (`Chunks`), derived
--     equality (`Equality`) and `Result`.
-- A module of a part declares its state and operations; its children are named for what they prove,
-- and `Tests` holds concrete inputs.
--
-- How the code is read:
--   * A mutex makes an operation one step: a function from the state before to the result and the state
--     after; a handler that lets go of it in between has a function for each section. What other threads do in between is a list of events that any history may have. A
--     poisoned mutex does not occur.
--   * Machine integers are natural numbers; where the source checks or saturates, so does the model,
--     at `u64_limit` or `2 ^ 64 - 1`, and a narrowing cast is a remainder.
--   * A deque or a vector is a list, a `BTreeMap` whose order is read is an ordered list of pairs, and
--     one whose order is not read a list of pairs. An `Arc` that is compared by address carries a
--     number for it. Diagnostic texts are left out.
--   * Errors are values: `Result`, or a type with the source's cases.
--   * Loops recurse on their list, or on fuel: the session IDs left below `u64::MAX` for the search of a
--     free one, and the bytes left of a slice for the cutting of frames. Each is proved enough.
--   * Text is its UTF-8 bytes, and a place in it is a character boundary where `is_char_boundary` says
--     so. The source of random bytes is a parameter, a function from its state to a draw or a failure
--     and its next state; a draw of 16 bytes is the number that they spell. The 64 attempts of
--     `generate_identity` are its fuel, and running out of them is its error.
--   * The crate postcard is a parameter of `Framing`, with the law that an encoded message is taken back
--     from the front of the bytes.
--
-- Not modelled: the event loop, sockets, processes and signals, which are system calls; the
-- vendored terminal parser; the client (src/pty.rs, src/app, src/runtime, src/ui); of
-- src/model.rs the labels and the starter project; of src/storage.rs the files, locks and JSON
-- text; of src/transcript.rs the opening of the file and failures of a read or a truncation; of
-- the daemon, the create requests around what is modelled here, and the rebinding of a cached
-- attach.
mod Base
pub mod Protocol
pub mod Daemon
pub mod Model
pub mod Storage
pub mod Transcript
