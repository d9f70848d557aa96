-- ===== src/Lib.antt =====
-- aurium: a control plane for coding agents that share one repository and one machine.
--
-- This library models the parts of the program that keep agents from harming each other's work, and
-- proves what they promise. They meet in one SQLite database, which the CLI and the daemon write
-- to at the same time.
--
-- - Base: texts (lists of code points), lists, Boolean tests and integers over the native numbers.
-- - Db: internal/store/store.go. A statement is a function of the tables, and a list of faults
--   says which statements the database refuses. Tx commits or rolls back. Db/Rules and Db/Keeps:
--   reasoning about a run whatever fails.
-- - Lease: internal/store/leases.go. AcquireLease, ReleaseLease, RenewLease, GetLease and WithLease
--   are acquire_lease, release_lease, renew_lease, get_lease and with_lease.
-- - Tokens: internal/store/tokens.go. CreateToken, AuthenticateToken, RevokeTokensForContainer, Has.
-- - Ids: internal/ids/ids.go. New, encode, Prefix, Valid and Time are new_id, encode, prefix_of,
--   valid and time_of. The state of New is Monotonic; a 48-bit clock and 80 bits of entropy are
--   lists of bytes, as in the source, with their values as numbers in Ids/Bits.
-- - Context: internal/contextengine. Context/Store has the tables, Context/Engine is engine.go (Get,
--   Write, Append), Context/Proposals is proposals.go and calls Write, Context/Grants is grants.go.
-- - Glob: path.Match of Go's library, which both kinds of grants call.
-- - Gateway: internal/gateway. Gateway/Risk is risk.go, Gateway/Grants is grants.go,
--   Gateway/Approvals is approvals.go; an upstream's CallTool and the mail of internal/ipc are its
--   parameters.
--   Gateway/Registry, Gateway/Offers and Gateway/Calls are gateway.go: RegisterCapabilities and the
--   lists of rows, ToolsFor, and CallTool with execute, on the tables of Gateway/Hub. CallTool asks
--   Gateway/Grants for a verdict and Gateway/Approvals to hold a call. Gateway/Native, Gateway/Powers
--   and Gateway/Mailbox are tools of native.go: those for context call Context, those for messages
--   call Ipc, and those that act on containers have the machine as a parameter. Gateway/Tasks is
--   taskStatus of task.go, which sends messages by Ipc.
-- - Ipc: internal/ipc/ipc.go. Ipc/Table has the rows, Ipc/Send is Send with its side effects,
--   Ipc/Delivery is Inbox, Ack, History, Get, RenudgeStale and NotifyContextChange.
-- - Stack: internal/stack. Stack/Forest is forest.go (BuildForest, TopoOrder, Descendants and
--   assignDepth), Stack/Sync is sync.go (CheckEligibility, Sync and RebaseInProgress), with git and
--   the file system as parameters.
-- - Snapshot: internal/runtime/snapshot. Snapshot/Retention is retention.go, GC and deleteSnapshot.
-- - Usage: internal/usage. Usage/Pricing is pricing.go, Lookup over the keys in any order.
-- - Events: internal/events. bus.go and tail.go: Emit, fanout, Subscribe, Replay and the tailer;
--   Events/Streams runs whole emits and deliveries in any order, Events/Steps their single steps.
--
-- Instants are integers or the texts that the tables hold, and clocks, new ids and random bytes are
-- arguments. The integers of the source that are counted here (versions, event ids) are natural
-- numbers without an upper bound. Loops are recursion on their lists; the climb to a container's
-- ancestors has the 64 steps that the source gives it, and encode the 26 digits of an id. A walk of the forest
-- has as much fuel, for the depth of its calls, as there are containers, which no walk uses up.
--
-- Not modelled: the statements that only list rows, the texts of errors, the payloads of events,
-- Cost of pricing.go (floating point), the other native tools of the gateway and the dispatch of
-- its requests, the manager of containers and the delegation between agents, and the parts that only
-- call docker, agents, the network and the file system. A run of Decide of
-- approvals.go is taken alone, though no transaction makes it so. Deliveries of events are modelled
-- both whole and step by step; a fan-out is one step.
pub mod Base
pub mod Context
pub mod Db
pub mod Events
pub mod Gateway
pub mod Glob
pub mod Ids
pub mod Ipc
pub mod Lease
pub mod Snapshot
pub mod Stack
pub mod Tokens
pub mod Usage
