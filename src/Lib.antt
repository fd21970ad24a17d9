-- ===== src/Lib.antt =====
-- Agent Comms: the protocol by which agents and humans share one code base through signed events.
--
-- A project is a log of events and the state that they build. A client signs a command; the authority
-- (internal/personalauthority) tests its key and sequence, decodes the payload, asks the validator
-- (internal/protocol) whether the event may happen in the state, and hands the payload that the
-- validator normalised to the projection (internal/projection), which gives the next state. The event
-- is hashed behind the one before it and stored.
--
-- Which file models what:
--   Model/Payloads, Model/State, Model/Zero: internal/model/model.go and internal/model/payloads.go; a struct is a record with the fields' names in snake_case, a Go map
--     keyed by text is a list of pairs (Base/Map), a pointer to a time is an Option.
--   Model/EventTypes: the factories of payloads by event type; Model/Providers: agent IDs and
--     providers, and Model/ActorIds: the IDs made up for an agent (internal/model/provider.go).
--   Protocol/*: ValidateTransition of internal/protocol/transitions.go, one function for each of its
--     blocks: Agents, Settings, Tasks, Messages, Invocations (Request, Delivery, Work), Runtimes,
--     Governance (policies, documents, approvals, providers, environment), composed in Validate in the
--     order of the source; Scopes, Standing, Approvals, Consumers and Evidence are its helpers. A check
--     returns a Result (Protocol/Result): a value or the text of the error.
--   Projection/*: ApplyEvent of internal/projection/apply.go, one function for each case of its type
--     switch, the stamp of the entity clocks (Stamp) and the consumption of approvals (Consume).
--   Authority/Engine: CreateProject and Mutate of internal/personalauthority/engine.go over an explicit
--     project record; Authority/Advance: the validator and the projection in the order in which
--     Mutate calls them. Authority/Ledger: the log; Authority/Accepted: a command
--     that Mutate accepts is an event that Advance accepts; Authority/Replays: commands to many
--     projects, one after the other.
--   Contracts: internal/controlplane/contracts.go, events as the log keeps them, receipts, their hashes
--     and signatures, pages and cursors, and the classes of errors.
--   Cache: internal/localcache/cache.go. Store has the tables and Apply, State, Rebuild and VerifyRange;
--     Rows and Chain say what rows lead from one state to another, Again what the cache knows of an
--     event that it has accepted.
--   Pages: Events of the cache and of the personal authority (Events), ExportJSONL of
--     internal/service/service.go (Export) and syncProject of internal/daemon/daemon.go (Sync), which
--     follow the pages; both loops run on fuel, one more than the rows there are.
--   Drafts: internal/draftstore/store.go, and the same operations of the cache.
--   Inbox: internal/model/order.go (Order) and internal/model/resolve.go (Resolve).
--   Service: internal/service/service.go, SelectNextInvocation (Select), SummarizeInvocationDelivery
--     (Outcomes) and retryOnDaemonOffline (Retry), whose fuel is the source's three attempts; Modes
--     compares its load and consumer modes with the validator's.
--   Delivery: internal/daemon/connectors.go, the dispatcher: the attempts of an invocation and the
--     back-off (Attempts, Backoff), the tests of a configuration (Configs), the choice of a runtime (Select) and
--     the loop over the invocations with what it submits (Dispatch).
--   Rows: internal/tui/rowlist.go and internal/tui/mouse.go, the scrolling of a list of rows (Scroll)
--     and the widths of its columns (Columns).
--   Agents, Tasks, Messages, Invocations, Settings: what the parts guarantee together.
--   Tests: a small project, and the theorems at concrete states of it.
--
-- Conventions and bounds. Texts are native strings, and a length counts what their `len` counts.
-- Case mapping and trimming act on ASCII (Base/Text names the letters beyond it). Times are numbers
-- of nanoseconds since Go's zero time, and 0 is the zero time. The product in the dispatcher's
-- back-off wraps around as an int64 (Base/Integers). Durations are read for the texts that are not negative; a negative text is refused,
-- which every range check of the source does as well. Loops run over the lists of the state, by
-- structural recursion, except those that follow pages and the search for a free agent ID, whose
-- fuel is one more than the rows or the taken IDs. The order of a list stands for the order in which Go
-- ranges over a map. Error texts are kept without the advice that follows a semicolon.
--
-- Not modelled: JSON, ed25519, SHA-256 and base64, which are parameters (Platform in Protocol/Result,
-- Crypto in Authority/Engine, Signing in Contracts/Signing, CursorCodec in Contracts/Pages); the
-- databases, whose tables are lists in the order of their keys; the receipts of the
-- authority; the daemon's requests, the processes and webhooks that a delivery starts, the file and URL
-- tests of a connector (Host in Delivery/Configs), the answers of the authority to a dispatcher (World
-- in Delivery/Dispatch), the command line, what the terminal user interface renders, transports and the
-- host's processes, which are input and output around this core.
pub mod Base
pub mod Model
pub mod Protocol
pub mod Projection
pub mod Contracts
pub mod Cache
pub mod Pages
pub mod Drafts
pub mod Inbox
pub mod Service
pub mod Delivery
pub mod Rows
pub mod Authority
pub mod Agents
pub mod Tasks
pub mod Messages
pub mod Invocations
pub mod Settings
mod Tests
