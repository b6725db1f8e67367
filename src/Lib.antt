-- ===== src/Lib.antt =====
-- The call-control core of the phone daemon in src/hfp_mcp: what a phone says over RFCOMM becomes
-- typed lines, the lines answer commands or report calls, and both change one shared state.
--
-- The parts, and the files that model them:
--   State (state.py): `HFPState`. State/Types is its data, as nested records by concern;
--     State/Connection, State/Call, State/Identity, State/Audio and State/Health have one
--     function per method, by the method's name. State/Steps makes an execution of them: the lock
--     serialises the methods, so an execution is a list of method calls. State/Snapshot is what
--     clients see of a state. State/Invariant, Generations, Transitions, Balance, Pending and
--     Replacement are proofs.
--   Media (media.py): `MediaLeaseManager`, the exclusive owner of the audio bridge; Media/Steps
--     is an execution of its methods and Media/Stale has the proofs.
--   Hfp/Line, Parser, Number, Csv and Results (hfp/protocol.py): the classifier of a line, the
--     incremental `ATParser`, `int`, `csv.reader` on one row, and the parsers of payloads.
--     Parser/Chunks and Parser/Frames are proofs.
--   Hfp/Command (hfp/protocol.py and hfp/session.py): the commands and `_encode_command`.
--   Hfp/Broker (hfp/session.py): `ATCommandBroker`. `execute` is cut where it waits: `begin` is
--     what it does before, `handle_event` and `abort` come while it waits, and `finish`,
--     `time_out` and `cancel` are its three ends. Broker/Pump is its direct mode over an event
--     queue; Broker/Attribution puts the broker opposite a phone that answers its commands in
--     order.
--   Hfp/Dispatcher, with Hfp/Reports and Hfp/CurrentCalls (hfp/session.py): `ATEventDispatcher`,
--     with the state and the broker that it shares as fields; Dispatcher/Calls has the rounds of
--     its loop, with what other coroutines do to the state and the broker in between, and counts
--     the calls that it reports; Dispatcher/Counts has its lemmas.
--   Hfp/Handshake (hfp/handshake.py): `HFPHandshaker.run` as a state and error monad over the
--     exchanges of the broker; other methods of the state may be called during each exchange.
--     Handshake/Completion is its proof.
--   Contracts (contracts.py): Contracts/Validate has the validators and `normalize_phone_number`,
--     and Contracts/Address and Contracts/PhoneNumber are proofs about valid addresses and
--     normalised numbers; Contracts/Ledger has `RequestLedger` on its table of idempotent
--     requests and `run_idempotent`, and Ledger/Replay its proof.
--   Callbacks (callbacks.py): `CallbackScheduler`, by now an archive that the daemon no longer
--     starts: a transaction is a function from the tables to its answer and the tables, and an
--     exception leaves the tables as they were. Callbacks/Schedule places, cancels, claims and
--     ends a callback; Callbacks/Reschedule changes its time. Callbacks/Steps is an execution:
--     the lock serialises the transactions, and the world records which callbacks were claimed to
--     be called; its children are proofs.
--   Playback (audio/gemini_playback.py, and the fields and `_reset_media_queues` of
--     gemini_live.py): the queue of frames that a call hears, its producers and its interruption;
--     Playback/Writer is `_playback_writer`, cut where it waits, where one `resume` takes one
--     item or times out; Playback/Steps is an execution of one writer among the other methods.
--     Playback/Stream is the view of a listener, and the other children are proofs: Bounds,
--     Frames and Enqueue on what is put in, Keeping, Delivery, Epochs, Refinement and Order on
--     the writer against the stream, and Progress, Drain and Heard on its end. A web socket that
--     raises ends the writer and is not modelled.
--   Enrollment (enrollment.py): the gate as the file that it keeps, and
--     `address_from_bluez_path`; Enrollment/Steps is a window of requests and Enrollment/First
--     its proof; Enrollment/Environment is `set_phone_in_service_env`, from the lines of the file
--     to the text that is written; its children LinesOf, Keys, Ends and Written are proofs.
--   Routing (routing.py): which route a caller or an outgoing call gets, on a parsed
--     configuration; the library `phonenumbers` is a parameter.
--
-- Numbers are natural numbers or integers; a float of milliseconds is a whole number of some
-- fixed fraction. Clocks, `uuid4` and the random part of a stream id are arguments. Text is the
-- list of its code points; the times of callbacks and of playback are in microseconds, those of
-- requests in seconds; upper and lower case are those of ASCII, which is what the decoded lines
-- hold, and in an address also that of the one other character whose upper case is hexadecimal.
-- Blanks are those of `str.isspace`.
-- Fuel: `scan` runs on the length of the buffer and one, and each frame that it takes is longer
-- than nothing; `decimal` runs on the number and one. Both are proved to be enough where they are
-- used.
--
-- Not modelled: sockets, threads and the event loop (RFCOMMThread) and logging; and the parts of
-- the daemon above the call state: server.py, gemini_live.py but for its playback, live_ai.py,
-- the rest of audio, phone workflows and tasks, the Hermes bridge, the parser of the routing
-- configuration, memory, settings, and BlueZ.
pub mod Prelude
pub mod State
pub mod Media
pub mod Hfp
pub mod Contracts
pub mod Callbacks
pub mod Playback
pub mod Enrollment
pub mod Routing
mod Tests
