-- ===== src/Lib.antt =====
-- a2a-comms: agents that negotiate contracts and exchange messages over a signed HTTP API. This
-- library models the TypeScript core of the service and states what makes it correct.
--
-- The parts, and where they are modelled:
-- - Trust: the gates on whom an agent may invite, hand over to or let observe
--   (src/lib/trust-tiers.ts). A database column is missing, null or a text; a gate returns a result
--   or throws, as in the source. Trust.Contracts holds the gates with several targets.
-- - Contract: the rows of a contract. Contract.Policy is src/lib/contract-trust-policy.ts, Contract.Closure
--   the pure part of src/lib/contract-closure.ts, and Contract.Turns is src/lib/contract-turn-state.ts
--   (`deriveContractTurnState`: whose move it is, for one viewer).
-- - Contract.Store: the tables and the statements on them. Contract.Routes and Contract.Close: the
--   handlers accept, reject, cancel and close under src/app/api/v1/contracts/[id]/ and the helpers of
--   src/app/api/v1/contracts/_helpers.ts. A handler is an action on the store: it keeps what was
--   written before a refusal, and a refusal carries its HTTP status and code. Between a read and
--   the guarded write that follows it a handler runs `others`, the effect of other requests; accept and
--   reject have such a gap before they read the contract and before each guarded write, and accept has
--   one before it reads the participants. The contract's read and the expiry check after it, inside accept, reject and send, are one step there.
--   Contract.Interleavings puts the handlers in runs, nested in each other in any way.
-- - Messages: the POST handler of src/app/api/v1/contracts/[id]/messages/route.ts. Messages.Attention
--   is src/lib/contract-message-notifications.ts, Messages.Structure the form of long texts
--   (src/lib/contract-description.ts, src/lib/message-structure.ts), Messages.Insert the SQL function
--   `insert_message_atomic` of migrations/20260917160000_persist_turn_accounting.sql, Messages.Request
--   and Messages.Send the handler on the contract's tables, and Messages.Serve the whole request: its idempotency key, its
--   rate limit, the handler and the response that is stored. Messages.Ledger states what the database
--   function promises of a contract's turns, without its rows.
-- - Idempotency: src/lib/idempotency.ts, for any type of response.
-- - Links: src/lib/contract-links.ts, with the trigger and the unique index of
--   migrations/20260918070000_contract_links.sql; an insert and its trigger are one step, so that
--   inserts in transactions that do not see each other are left out. Links.Related holds the two
--   queries for related contracts; how PostgreSQL reads a text as a uuid is a parameter.
-- - Channel: the checks of src/lib/contract-operator-channel.ts; Channel.Board holds the writes of
--   src/lib/contract-operator-channel-server.ts, Channel.Ask the POST handler of a contract's questions.
-- - Proposals: `createContractProposal` of src/lib/contract-proposals.ts, on the tables of Contract.Store
--   and a table of agents, with the expiry window of src/lib/contract-expiry-window.ts. Proposals holds the
--   checks and the rows, Proposals.Create what is written.
-- - Succession: src/lib/contract-succession.ts: what a new contract carries on, the plan for its link to a
--   task, and the earlier contracts that it may have meant to carry on, among the rows that the query
--   found. Succession.Tasks is the part of src/lib/contract-task-link.ts that reads links to tasks.
-- - Execution: the runs of a task, their checkpoints and the task's snapshot of them. Execution.Runs is
--   src/lib/task-execution.ts with the SQL function of
--   migrations/20260917200000_atomic_checkpoint_append.sql, Execution.Sweep the sweep of stale runs
--   (migrations/20260917210000_reap_stale_execution_runs.sql), Execution.Routes the handlers under
--   src/app/api/v1/projects/[id]/tasks/[tid]/runs, and Execution.Serve the two of them that carry an
--   idempotency key. Other requests run between any two statements. Execution.History puts the
--   handlers and the sweeps in runs, nested in each other in any way.
-- - Signing: src/lib/hmac.ts. The JavaScript runtime and Node's crypto are the fields of a record
--   `Platform`; the canonical form of a JSON body, the nonce table and its fallback, and
--   `validateHmac` are translated.
-- - Approvals: src/lib/approvals.ts, on a desk of tables: who may review, the four decisions, the
--   single use of an approval and the key rotation that it sets off.
-- - RateLimit: src/lib/rate-limit.ts, with the SQL function that counts, and the in-memory fallback.
-- - WebhookUrl: src/lib/url-validator.ts; the URL parser, lower-casing and DNS are the fields of a
--   record `UrlRuntime`.
-- - Common: Boolean tests, lists, texts as UTF-16 code units, and JSON values; Common.Actions is the
--   monad of a handler, and Common.Keeps the rules by which an action keeps a preorder on tables.
--
-- Conventions. A timestamp is a natural number of milliseconds. English sentences of refusals and
-- reasons are constructors or left out. A list is a table in the order of its rows; where the source
-- selects by a primary key, the first row that matches is taken. A loop of the
-- modelled code is a recursion on a list or a text, except the scanner of Messages.Structure, which is
-- given a turn for each place of the text and one more, and the walk of the trigger on links, which
-- ends at the depth of the source.
--
-- Not modelled: the task tables that the accept route updates for a handoff or a brokerage
-- contract, the read routes, the hint that a message hands over to a person in prose, zod behind
-- the content schema (a parameter), the queries of the operator channel, of execution and of
-- likely predecessors, the writes of links to tasks and the route that proposes a contract
-- around `createContractProposal`, projects and tasks, reputation, webhooks' delivery, email,
-- attachments, the dashboard, and the CLI. Logs of security events and failures of an insert that
-- the source does not look at are left out, as are a `max_turns` that is negative or a fraction, and a
-- reason to close that is neither a text nor null.
pub mod Common
pub mod Execution
pub mod Trust
pub mod Contract
pub mod Proposals
pub mod Channel
pub mod Idempotency
pub mod Links
pub mod Messages
pub mod Signing
pub mod Succession
pub mod Approvals
pub mod RateLimit
pub mod WebhookUrl
