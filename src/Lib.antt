-- ===== src/Lib.antt =====
-- Knowledger records, in a ledger of a channel, which revision of a document its members have agreed
-- on. This library models the domain of the program, packages/domain/index.ts: the contracts, the
-- commands that change the ledger, and the resolver that says what is agreed. Every other package calls
-- it: a ledger adapter runs `execute` in a transaction and the services read with `resolveAt`.
--
-- Base has the shared helpers: text is the list of its UTF-16 units, numbers are natural numbers.
-- Fault has `DomainError`, with its code, status and retryable flag, and the result type that stands for
-- throwing; messages and details are left out. Unicode has the surrogate test and UTF-8.
--
-- Json has JSON values and the checks `assertRecord`, `assertKeys`, `assertSafeInteger`; Json.Canonical
-- has `canonicalize` (depth 128, 65536 array items), `cloneCanonical`, `sameJson` and
-- `assertUniqueCanonical`. A number that is not whole is kept as the text that JSON.stringify gives. -0
-- is 0. What JSON text cannot hold (functions, symbols, accessors, cycles, foreign prototypes, sparse
-- arrays) has no value here, so that the checks for it have no branch. A clone is the value itself when
-- it has a canonical form: only the order of an object's fields could differ.
--
-- Contracts has a module for each record of the domain, with its validator (`validateRevision`,
-- `validatePolicy`, `validateConfig`, `validateProposal`, `validateDecision`, `validateAgreement`) and
-- the JSON that the code writes for it (`encode_...`). The regular expressions of the ids are functions
-- on text. SHA-256 belongs to node:crypto: it is the parameter `sha256` from bytes to hexadecimal text,
-- of which nothing is assumed.
--
-- Ledger has the state keys (`keyFor`) and the store of a transaction. A key keeps its parts apart, and
-- `state_key` gives the text of it; `get` reads null as undefined, as every caller does. An adapter rolls
-- back a transaction that throws, so that an operation returns the new store only with a result.
--
-- Resolve has `resolveInternal`, `resolveAt`, `dependencyEligible` and, in Resolve.Approvals,
-- `validateAgreementApprovals`. The recursion is on `room`, which is 9 - depth: the code answers
-- DEPENDENCY_DEPTH where depth exceeds 8, which is where room is 0, so that the room is always enough.
-- The mutable budget is a count that goes in and out. Resolve.Soundness says what an eligible answer is.
--
-- Commands has a module for each command, with the part up to the first write (`admit_...`) apart from the
-- writes: Publish, Propose, Decide, Activate, Status (withdraw and suspend), Fence; Suspension has what
-- suspends an agreement; Execute has `performCommand`, `bootstrap` and `execute` with its idempotency
-- records. The walk over published dependencies has the same room. Commands.Frames says what each
-- command cannot write, Commands.Idempotency and Commands.History what `execute` keeps, and
-- Commands.Activation, with
-- Commands.Collected and Commands.Planned, what an activation rests on and writes.
--
-- State models packages/storage/state-validation.ts, what a ledger accepts: State.Writes has
-- `validateStateWrite` and the immutable kinds, State.Links `validateStateLinks`. All failures there are
-- one error, so that the checks are tests. A key is its kind and its decoded parts; the splitting of a
-- key's text is not modelled, since a text that is not the `stateKey` of a key is refused. Values that
-- `get` gives were validated, so that the links read them with the validators. State.Binding and
-- State.Unanimity say what acceptance means. State.Journal has the journal of
-- packages/storage/local-ledger.ts: `validateJournalRows`, the event that `transact` appends and the
-- writes of `apply` in a live commit, over a write set in the order of its keys. The hash of a record is a
-- parameter; the tables, the replay and the comparison of projection and history are left out.
-- State.Chain says what a commit keeps.
--
-- Browse models packages/storage/browse-index.ts and browse-contract.ts, the references to committed
-- records that the services page through: Browse.Refs has the references and their comparators,
-- Browse.Merge what `prepare` and `mergeDelta` do with one kind of them, Browse.State the state with
-- `prepare` and the merges of `commit`, Browse.Query the queries without the cache, Browse.Cache the cache of
-- the selections with its limits, Browse.Index `query` and `commit` on both. A map that is only looked up is
-- a function and a missing bucket an empty one; the cache is the list of its entries in the order of use.
-- Stable sorting is an insertion sort. `localeCompare` is a parameter, a consistent order where a theorem
-- says so. A key of the cache is the tuple that the code writes as JSON text, and the length of that text
-- is a parameter. A plain `Error` is the code `plain_error`. An eviction loop has as fuel the number of the
-- entries, one of which each turn drops. Browse.Coherence says what the cache keeps.
--
-- Delivery models the delivery of review messages: Delivery.Packet has the packets and receipts of
-- packages/review/delivery-contract.ts, Delivery.Outbox and Delivery.Inbox the tables of
-- packages/storage/review-delivery-store.ts as lists of rows, each SQL statement as a function on the rows,
-- and Delivery.Worker the loop of packages/review/delivery-worker.ts with its 20 turns, which take the
-- clock, the random token and the transport's answer from outside. The unique columns are checked where a row
-- is inserted. A stored packet is its JSON value. Between two turns nothing else runs in `drain`; the steps
-- of Delivery.Worker interleave claims, settlements and the service in any order. The pages of rows, the
-- timers and the abort signals are left out.
--
-- Http models packages/http/graceful-close.ts: the bounds on the deadlines, of numbers that are
-- whole, NaN or infinite (a fraction has no value here), and
-- `waitForServerClose` as a record of its variables with the waits that are under way; `step` takes an event
-- of the event loop (a timer, the callback, a count, the end of a wait), and an event that cannot come
-- leaves the state. The times between events, the sweep of idle connections and the diagnostics are left out.
--
-- Client models `guardedGeneration` of packages/client/guarded-generation.ts: an `Adapter` gives the outcome of
-- each awaited call, a returned value, an error or an abort before or during the call, and the result comes
-- with the calls that were made. The check of a refreshed manifest, `validateRefreshedManifest` of
-- packages/client/knowledge-client.ts, is any function of the adapter; timers and listeners are left out.
--
-- Examples has a small world with one policy and one representative, in which the code is run.
--
-- Not modelled: the other packages (the rest of storage, fabric, connectors, the rest of review, measurement,
-- config, the rest of http, auth, the rest of client, embeddings, import), the applications, tests and tools.
pub mod Base
pub mod Fault
pub mod Unicode
pub mod Json
pub mod Contracts
pub mod Ledger
pub mod Resolve
pub mod Commands
pub mod State
pub mod Browse
pub mod Delivery
pub mod Http
pub mod Client
pub mod Examples
