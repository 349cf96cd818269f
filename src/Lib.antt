-- ===== src/Lib.antt =====
-- A development beside the service of kokorobox: who may call it, what a call may change, and what
-- is left when a call of the operating system fails.
--
-- The service listens on a local socket or pipe. Every request passes the middleware of route/auth,
-- and its handlers drive the other parts: the lease of DNS settings (route/dnsapi), the router of
-- processes (processrouter), the process of the core (core), whose wanted state is kept by
-- route/coreapi, the system proxy (route/sysproxyapi) and the firewall (internal/winfirewall).
--
-- Common: effects that can fail and keep their state (Common/Effects), byte texts with the
-- functions of Go's strings package that the code calls (ASCII letters only for the case), numbers
-- in decimal, association lists with get, put and delete for maps, and a Result type with do blocks
-- for the error returns.
--
-- Auth (route/auth): Auth/Principals is the principal of auth.go and its validation; Auth/KeyRing
-- the stored keys, SetPublicKey with its roll back, loading and VerifySignature; Auth/Binding the
-- bootstrap and the setting of the principal; Auth/Nonce the nonceStore of middleware.go;
-- Auth/Requests the canonical form and AuthMiddleware. The cryptography and the encodings
-- (Auth/Crypto) and net/url are interfaces; a law of them is a hypothesis where a theorem needs it.
-- A mutex makes an operation one step; a clock reading is an argument, since the code takes it
-- before the lock.
--
-- Dns (route/dnsapi/lease.go): Dns/Lease has the state, which holds the settings of the system, the
-- record on disk, the clock and a list of faults, one for each call that can fail; Dns/Operations
-- is set, renew, release, expire, Stop, recover and Configure, and Dns/Reconcile the loop that
-- follows the active service. A pointer to an entry is its service id. A list access out of range
-- and a nil pointer are the error panicked. The encoding of the record as JSON is left out.
--
-- Router (processrouter/types.go): Router/Wildcard is wildcardMatches, whose indices are the rests
-- of the texts, with the fuel turns, which is more than the loop can use: between two returns to a
-- star it makes at most as many turns as bytes are left, and it returns at most as often as the
-- value has bytes. Router/Patterns is the validation of paths and names with the path.Clean and
-- path.Base that it calls, Router/Requests validateRule and normalizeRulesRequest, Router/Commands
-- buildRouterCommand and the counts. Router/Manager is the manager of manager.go and its Reconcile,
-- Router/Manager/Lifecycle its other operations, with the answers of the system to one operation as
-- a record; ReplaceRules and Enable, which let go of the mutex before they reconcile, are one step
-- here. Router/Diagnostics is the history of diagnostics.go, with the trimming of white space as an
-- argument and Common/Utf8 as its UTF-8, and Router/Diagnostics/Levels the levels of native
-- messages.
--
-- Core logs (core/log_writer.go): Core/LogWriter is the writer that keeps the file of the core's
-- log within a limit; its state holds the files and a list of faults, one for each call of the
-- system, and low is the product of a size with the ratio 0.7, a computation with floating point
-- numbers.
--
-- Core launch (core/launch.go): Core/Launch is the arguments of the core, with the endpoint of the
-- controller and the commands of the startup hook as arguments, and Core/Launch/Flags what the core
-- reads from them with the flag package of Go; Core/Launch/Environment is its environment, and
-- Core/Launch/Environment/Reading what a started process reads from it. The order in which Go
-- ranges over a map is any permutation. Core/Launch/Profiles is the normal form of a profile and
-- Core/Launch/Profiles/Store its file, with the functions of path/filepath, os.Stat and JSON as
-- interfaces.
--
-- Desired core (route/coreapi/desired.go and core.go): CoreApi/Desired is the wanted state of the
-- core, the file it is kept in, the ticks that follow it and the requests that stop and restart.
-- The encoding as JSON is an interface, and the core is a process that runs or not.
--
-- System proxy (route/sysproxyapi, as on Linux): Sysproxy/Snapshot is what the guard remembers of
-- the settings, Sysproxy/Lease the lease and its timers, Sysproxy/Records the record on disk and
-- the recovery at a start, Sysproxy/Guard the guard, of which a round is two steps, and
-- Sysproxy/Requests the requests. The settings of the system are a state of their own behind an
-- interface, and JSON is one too. Left out are the server of PAC scripts, the waiting for changes
-- and the reconciliation on macOS.
--
-- Firewall (internal/winfirewall/policy.go): Firewall/Policy is sameRule, the preflights and
-- reconcile over ruleStore, which is a record of operations on a state of its own; the laws of a
-- listing, an addition and a deletion are a hypothesis where a theorem needs them.
--
-- Core (core/events.go): Core/Events is the hub of core events. A channel is a queue with a
-- capacity, under a number; SubscribeEvents is two steps, since it sends the first event without
-- the lock.
--
-- Apart from the loop of wildcardMatches all recursion is structural.
--
-- Not modelled: processes, sockets, named pipes and other calls of the platforms (core/manager.go,
-- core/sandbox, listen/namedpipe, processrouter/process_linux.go and the like), which the code only
-- makes or whose effects are arguments here; the decoding of requests and the writing of answers;
-- the texts of errors and of the log; and the parts that each paragraph names as left out.
pub mod Auth
pub mod Common
pub mod Core
pub mod CoreApi
pub mod Dns
pub mod Firewall
pub mod Router
pub mod Sysproxy
