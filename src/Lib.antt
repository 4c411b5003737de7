-- ===== src/Lib.antt =====
-- The control plane of the dsh desktop shell.
--
-- The desktop shell and its daemon give agents capabilities (terminal, browser, runtime) only
-- through an authorization chain. A peer negotiates an activation; the bridge turns the result into
-- grants and leases of the broker; every invocation passes the broker's gate; the browser registry
-- holds the sessions that the browser capability works on.
--
-- Prelude: the library names that all files share, Boolean tests on the native numbers, lists, the
--   association lists that stand for hash maps, Rust's Result, and equality of texts as a decision.
-- Broker: crates/supervisor/src/broker.rs and broker/agent.rs.
--   Types and Scope have the data and `Scope::covers`; State has `register_provider`, `grant`,
--   `lease`, `revoke`, `enforce_valid_lease`, `enforce_dispatch` and `dispatch`; AgentTypes and
--   Agent have `broker_grant_from_negotiation`, stage by stage (`admit`, `activation_generation`,
--   `issue_grants`, `issue_leases`); Takeover has `revoke_agent_grants`; Ops lists all calls that
--   change the broker. Errors has the protocol codes of refusals. Gate, Invariance, Durability,
--   Authority, Issued, Negotiated and Replay hold proofs.
-- Browser: crates/browser-provider/src. UrlPolicy has `UrlPolicy::validate`, over the code points
--   of the text; Session has the registry and its operations, Listing its sorted list; Lifecycle has
--   histories of calls.
-- Negotiation: crates/adapter-dsh-std/src/negotiate.rs. Messages has the frames and their checks,
--   Session the operations of one activation's session, Invariant what holds after any calls.
-- Scheduler: crates/daemon/src/scheduler.rs. Entries has the request checks, the parts of `register`
--   and `cancel` under the lock, `fire` and the worker's firing pass (`fire_due`); Civil has
--   the day numbers of dates, Timestamp `parse_rfc3339` and `fire_time`, with the printer
--   `now_timestamp_like` of crates/daemon/src/envelope.rs; Firing, Calendar and RoundTrip hold proofs.
-- EventRouter: crates/daemon/src/events.rs. State has the router and its operations, View what it
--   promises, with no tables; Routing and Refinement hold proofs. The content of an event is a type
--   parameter. A channel outlives its sender: it stands apart from the router's table of senders.
-- Runtime: crates/managed-runtime/src/supervisor.rs. State has the supervisor's methods, Sections and
--   Stop one function for each block that holds its lock, Candidate `parse_candidate`, Start the
--   waiting loops of `start_with_spec`, Calls the calls composed of all these. Steps has every
--   interleaving of the blocks. The URL parser is a record of functions (`UrlApi`).
-- Transport: crates/local-transport/src. Framing has `encode_frame` and `read_frame` over the arrivals
--   of a stream, Worker `worker_loop`, Server the credential registry and `ConnLimiter`; RoundTrip,
--   Pauses, Delivery and OneTime hold proofs.
-- Conformance: crates/adapter-dsh-std/src/conformance.rs and facets.rs. Formats has the tests of a
--   declared coordinate, Declaration `conforms` with its log, Facets the catalog; Evaluation and
--   Intersection hold proofs.
-- Envelope: crates/daemon/src/envelope.rs. Formats has the formats of texts, Types the envelope and
--   its issues, Frames `validate_envelope` and what it calls; Words, Grammar, Checks,
--   WellFormed and Stamps hold proofs. What serde_json does with a payload is a record of functions (`JsonApi`).
-- Daemon: the server that ties the parts together, crates/daemon/src/server.rs, capabilities.rs and
--   browser.rs, with crates/local-transport/src/peer.rs. Types has the data and `DaemonApi`, what the
--   server does not define itself; BrowserHost the sessions with their owners and the handlers of
--   `browser.*`; Catalog the capabilities and `dispatch`; Authority the class of a peer; Terms what
--   the catalog and the broker grant at a Hello; Replies `error_result`; Hello, Invocation and
--   Server `handle_hello`, `handle_invocation` and `handle_envelope`; Connection the frames and the
--   end of `serve_connection`; Events the frames of `EventEnvelopeTemplate`. Admission, Handling,
--   Classes, History, Safety, Entries, Ownership, Replay, Answers, Promise and Teardown hold proofs.
-- Terminal: crates/terminal-provider/src/lib.rs and crates/daemon/src/terminal.rs. Registry has the
--   `PtyRegistry`, Requests the requests with their checks, Host the `TerminalHost`, Handlers the
--   handlers of `terminal.*`; Gate, Live and History hold proofs. What the operating system does in a
--   call is an argument of it (`Os`). The daemon's dispatch of Daemon takes the handlers as fields of
--   `DaemonApi`, so the two are not composed.
--
-- A method that changes its object returns the new record with its answer; an error is a value. A
-- hash map is the list of its entries, in an order that stands for the one that the map yields them
-- in. Each reading of a clock is an argument of the call, as is a generated message id. Native texts
-- are compared whole; `len` counts bytes, as in Rust. u64 counters wrap, `saturating_add` and
-- `saturating_mul` saturate, and all other numbers (times, generations of requests) are taken as
-- they come. The payload of an invocation, a JSON value, is a type parameter. Decimal printing of a
-- session id has fuel for the twenty digits of a u64. The `while let` of the scheduler's worker takes
-- fuel, one round for each due entry; all other loops are recursions on lists.
-- A waiting loop of the runtime takes the list of what its rounds see, and of what other calls do to
-- the supervisor while its lock is free (any functions); it ends at the latest with a
-- round after the deadline, and a list that ends before stands for a loop that still waits. A port
-- is printed with fuel for the five digits of a u16.
--
-- A call of the daemon's server runs whole: what other connections do to the broker and the resources
-- happens before it (`meanwhile` of a turn, any function). The ids that the server makes up, its
-- clocks and the counters of the transport are arguments (`Fresh`), the wording of its messages a
-- function of their reason.
--
-- Not modelled: threads, but for the interleavings of the runtime's locked blocks (elsewhere a lock
-- is held for each whole call; `publish` of the router, which sends after it released the lock, is
-- one step), poisoned locks, the wording of error messages and of event details, JSON encodings, the
-- file system and the processes themselves, and the components of the repository beside these:
-- sockets and pipes, the scheduler's thread, the credential file and the start of the daemon, the
-- platform code and the reader threads of the terminals, the host of runtimes (its handlers are
-- fields of `DaemonApi`), the DSH adapter and the desktop user interface.
pub mod Prelude
pub mod Broker
pub mod Browser
pub mod Negotiation
pub mod Scheduler
pub mod EventRouter
pub mod Runtime
pub mod Terminal
pub mod Transport
pub mod Conformance
pub mod Envelope
pub mod Daemon
