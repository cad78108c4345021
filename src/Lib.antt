-- ===== src/Lib.antt =====
-- Spectro: telemetry from the browser to storage, and the management of who may see it.
--
-- The program. A browser SDK captures events (packages/core on the types of packages/types and
-- packages/protocol, with packages/browser around it), keeps them in a bounded queue, and sends them
-- in envelopes. The ingestion service (apps/ingest) checks an envelope and appends it to a stream
-- (packages/pipeline). The processor (services/processor) takes envelopes off the stream, adds a
-- fingerprint to errors and writes the events. The management API (apps/api) keeps organisations,
-- their members and invitations.
--
-- The files, and the code that each models:
--   Protocol/Json, Context, Event   packages/protocol/src/types.ts and packages/types/src/index.ts
--   Protocol/Depth                  isJsonDepthWithin of packages/protocol/src/validation.ts
--   Core/Queue and its children     EventQueue of packages/core/src/queue.ts: Enqueue (enqueue,
--                                   restore), Select (#selectImmediate), Drain (drain), Prepend
--                                   (prepend, retry); Defs holds the state, Evict the invariant
--   Core/Normalize                  packages/core/src/normalize.ts
--   Core/Context                    packages/core/src/context.ts
--   Core/Client and its children    packages/core/src/client.ts: capture and updateContext in Client,
--                                   flush, #flushOnce and #restoreQueue in Client/Flush; Delivery is
--                                   the step relation that interleaves them
--   Browser/Outbox                  packages/browser/src/outbox.ts
--   Browser/Lifecycle, children    packages/browser/src/lifecycle.ts: the state and the calls in
--                                   Lifecycle, the page context in Pages; History is the step
--                                   relation
--   Browser/Network                 packages/browser/src/network.ts and network-url.ts
--   Browser/Errors and its children packages/browser/src/error.ts: the stacks in Stack
--   Browser/Targets                packages/browser/src/monitor-target.ts
--   Browser/Transport               packages/browser/src/transport.ts
--   Ingest                          POST /v1/envelope of apps/ingest/src/app.ts, and store.ts
--   Pipeline                        packages/pipeline/src/admission.ts, and the sink and the source of
--                                   jetstream.ts
--   Processor/Fingerprint, Worker   fingerprint.ts, processor.ts and worker.ts of services/processor
--   Processor/Status                operations.ts of packages/pipeline and of services/processor
--   Api/Roles                       apps/api/src/organization-permissions.ts, canManageMember
--   Api/Members and its children    apps/api/src/postgres-organization-members.ts: #mutateMember in
--                                   Members, the invitations in Members/Invites
--   Api/Tables, Api/Auth, children  apps/api/src/postgres-auth-control-plane.ts; Auth/Steps is the step
--                                   relation of its calls
--   Api/Hosted and its children     apps/api/src/hosted-auth.ts: login and callback in SignIn, the
--                                   session requirement, session and logout in Guard; Plane joins it
--                                   to Api/Auth
--   Api/Issues and its children     apps/api/src/postgres-issue-lifecycle.ts
--   Api/Keys and its children       apps/api/src/postgres-project-write-keys.ts, and the authorizer
--                                   apps/ingest/src/postgres-write-key-authorizer.ts; Ingestion joins
--                                   them to the ingestion handler
--   Api/Workspaces and its children apps/api/src/postgres-workspaces.ts
--   Examples                        concrete events, queues, clients and databases
--   Prelude                         shared tests, lists, texts and results
--
-- How the code is rendered. An object with private fields is a record, and a method is a function
-- that returns its result with the new record. A thrown error is `none` or an error value. Functions
-- have the names of the source in snake case. A loop over the queue is structural recursion or has
-- fuel: the eviction loops have the length of the queue, since each turn removes an entry, and
-- isJsonDepthWithin the number of the value's parts, since each turn takes one off the stack. Numbers
-- are naturals: counts, byte sizes and times in milliseconds. Strings are lists of UTF-16 code units.
-- Asynchronous code is cut where it waits: a flush is a call, a drain and an answer, between which
-- anything else may happen. A database transaction is one function, and one that throws leaves the
-- tables as they were.
--
-- Parameters. The byte length of JSON.stringify, Ajv's validation, toLowerCase and trim, the URL parser,
-- JSON on stored sessions, SHA-256, the
-- regular expressions of the fingerprint, the address validator, the clock and random identifiers are
-- arguments. An event's and an envelope's byte lengths are two functions, and only the theorem on the
-- envelope that a flush sends assumes something of them. The store of ingestion and the writer of the
-- processor answer whether they return or throw, and what they leave either way: one that throws may
-- have written. The calls on a message of the stream may throw too. `String` and `Number` on the header
-- of the time, and the order of the database's texts, are arguments.
--
-- Not modelled: the capture of performance and interactions in the browser, the subscriptions to its
-- runtimes, the query routes of the management API, the discovery of the
-- identity provider, the ClickHouse tables, the provisioning of streams, the web console, scripts and
-- infrastructure.

pub mod Prelude
pub mod Protocol
pub mod Core
pub mod Browser
pub mod Ingest
pub mod Pipeline
pub mod Processor
pub mod Api
pub mod Examples
