-- ===== src/Lib.antt =====
-- The tRPC Agent Service, its core in Go under trpcservice/: tenants and their agent applications
-- with published revisions, a gateway that turns verified callers into executions of a tenant's
-- agents, channels that route the messages of instant-messaging providers to a tenant's application,
-- and a runtime with a durable queue of tasks.
--
-- How the parts meet. An operator creates tenants (trpcservice/tenant) and, below a tenant,
-- applications (trpcservice/agent), whose drafts are published as immutable revisions; the
-- application points at its current and its canary revision, and an execution runs on a snapshot of
-- the three. A provider's callback is verified and becomes a RoutingTarget
-- (trpcservice/channels/routing.go), which names the Runner's user and session by
-- tenant.NewRunnerIdentity (trpcservice/tenant/runtime.go). The gateway normalises the message
-- (trpcservice/gateway/gateway.go), takes a claim for it so that it runs once
-- (trpcservice/gateway/idempotency.go) and asks the tenant's limiter for a slot
-- (trpcservice/gateway/limits.go). Work that may fail is a task of the queue, which workers lease,
-- run and settle (trpcservice/runtime/queue/queue.go).
--
-- Files and the code that they are about.
--   Runtime/Queue          Backend, MemoryStore and the tests of its arguments; one function for
--                          each method, and `step` and `run` for sequences of calls by anyone.
--                          Below it, one file for each thing that is proved of them.
--   Runtime/Queue/Worker   Config, New, RunOnce, backoff, errorClass, Start and Close.
--   Tenant/Identity        validateTenantID, namespacedID and NewRunnerIdentity.
--   Tenant/Settings        the configuration of a tenant, its defaults and its validation.
--   Tenant/Roots           Tenant, NewTenant, Validate and NewConfigurationSnapshot.
--   Tenant/Repository      InMemoryRepository of tenant/inmemory, one function for each method, and
--                          `step` and `run` for sequences of calls.
--   Agents/Apps            App, NewApp, Validate and the table of status changes (app.go).
--   Agents/Drafts          the configuration of a draft, its normal form and validation (revision.go).
--   Agents/Revisions       Revision, NewRevision, Validate, ComputeContentDigest and Publish.
--   Agents/Repository      InMemoryRepository of agent/inmemory with the operations on drafts;
--   Agents/Changes         its inputs, events and shared parts; Agents/Operations, the operations
--                          that publish, roll back, set a canary or change a status, `step`, `run`.
--   Agents/Life            the life of one application as a step relation, and what follows from it
--                          for sequences of calls.
--   Agents/Snapshots       AgentExecutionSnapshot: what one execution runs on (runtime.go).
--   Channels/Routing       VerifiedBinding, RoutingTarget, their Validate, and RunnerIdentity;
--                          the helpers of channels.go that they call.
--   Gateway/Messages       the errors of the package, identifiers, InboundMessage.Normalize.
--   Gateway/Principals     AuthenticatedAPI, Principal, their constructors and Validate (auth.go).
--   Gateway/Idempotency    IdempotencyStore and IdempotencyClaim (idempotency.go), as one heap.
--   Gateway/Limits         TenantLimiter and TenantLimitLease, as one heap.
--   Base                   Boolean tests, keys, maps, texts, integers, results, contexts, sorting,
--                          the length-prefixed encoding that three packages write, and what several
--                          packages repeat: identifiers in base 32 (Ulids) and keys (Slugs).
--
-- How Go is read. A method is a function of its receiver's state that returns the new state; the
-- mutex makes each method one step, so what goroutines do is a list of calls in some order. A
-- string is a list of runes, and its length in bytes counts the bytes of UTF-8. An int64 that the
-- code adds to wraps at 2^63 as in Go; counters that a limit bounds are natural numbers. A time is
-- a count of nanoseconds since Go's zero time, and every reading of a clock is an argument. A
-- context is the nil interface or what each look at it finds, in order. A pointer that may be nil
-- is an Option, and an error is the sentinel that errors.Is finds. A Go map is a list of entries
-- with distinct keys, and its order of iteration is sorted away or does not matter.
--
-- A float64 is only compared: NaN, an infinity, or a sign, a mantissa and a power of two. Random
-- bytes and the clock of an identifier are arguments; encoding/json and crypto/sha256 are the two
-- fields of a record that the code that hashes a revision takes. A repository copies what it stores
-- and returns, so no caller shares its values, and they are values here.
--
-- Fuel. The digits of a number n are written with fuel n + 1, and each step divides by ten; the
-- backoff loop runs once for each attempt; an identifier has 26 characters, written in 26 rounds.
-- No other definition has fuel.
--
-- Not modelled: the ticker loop of a worker, the SQL and HTTP adapters, the provider protocols, the
-- dispatcher and its registry, the backend and model profiles, the audit trail, the outbox, the
-- storage bundles and their migration, and the commands. The first three are input and output; the
-- others keep state of their own. Of a method on a nil receiver, only Ready, Acquire
-- and Begin are written out, since Close and Release do nothing there.
pub mod Agents
pub mod Base
pub mod Channels
pub mod Gateway
pub mod Runtime
pub mod Tenant
