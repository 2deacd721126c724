-- ===== src/Lib.antt =====
-- A verification library for Operational Inbox, a Django application that receives, answers and sends
-- the mail of its users' domains. It models the services under inbox/services/ with the rows of
-- inbox/models.py that they read and write, and proves what they promise.
--
-- Parts and files:
--   Common: tests on numbers and options, tables as lists of rows with the queries the services make
--     (filter, count, first, order_by, update), and lemmas on them.
--   Settings (operational_inbox/settings.py): the limits and periods, a parameter of the services.
--   Accounts: users, billing profiles and domains (inbox/models.py), and what a plan allows
--     (inbox/services/entitlements.py).
--   Digest and Drafts: content hashes, drafts, revisions and approvals (inbox/models.py).
--   Database: the tables of sending as one state, with notifications, delivery events and audit rows.
--   Outbound: Message holds the rows; Quota is require_outbound_capacity with its helpers; Submission
--     is submit_outbound as its two transactions around the call of SES, _authorization_error and
--     recover_stale_submissions (all in inbox/services/outbound.py); Delivery is
--     process_delivery_notification (inbox/services/ingestion.py); Workers lets any number of workers,
--     the event consumer and the owner run these transactions in any order.
--   Jobs: the durable queue, enqueue_job and run_due_jobs (inbox/services/jobs.py).
--   Setup: the tables of domain setup. Capacity is inbox/services/domain_entitlements.py; Routing is
--     inbox/services/routing_transitions.py: Opening begins, cancels and refreshes a transition,
--     Preparing provisions it, Probing makes its test, Cutover cuts it over and completes it, Steps puts
--     their transactions in any order.
--   Mailbox: inbox/services/conversations.py and inbox/services/spam_review.py.
--   Handling: Policy is resolve_action of inbox/services/handling_policy.py. States, Runs and Working are
--     inbox/services/handling.py for one conversation: the row of its handling, its runs, the two
--     transactions of run_handling and what a worker does after an exception; Moves puts these
--     operations in any order, with any number of workers. Policies is the rest of handling_policy.py and
--     AgentMail the check of an agent's reply before it is submitted.
--   Ingestion: _route_domains of inbox/services/ingestion.py.
--   Replies: Desk holds the tables and errors, Checks the validation of rows (inbox/models.py); Writing,
--     Queueing and Sending are inbox/services/drafts.py, Calls its calls in any order; Compose is
--     inbox/services/compose.py.
--   Billing: Stripe's objects and process_event (inbox/services/billing.py), with the reconciliation of
--     Capacity.
--   Samples and the Tests modules: the theorems at concrete rows.
--
-- How the code is read: a transaction is a function on tables; a row that a query locks is read at the
-- start of the transaction, and one that was read before is an argument where the code uses it later. Moments and spans are microseconds as natural numbers, and a comparison
-- with `now - window` is written as one with `created_at + window`. IDs, idempotency keys, payloads and
-- hashes are numbers that are only compared. Every loop runs over a list or, in run_due_jobs, for the
-- number of rounds the caller allows, so nothing runs out of fuel. The order that the database gives
-- to rows equal under an `order_by` is not specified; the model keeps the table's order.
--
-- Parameters: the calendar of `datetime`, the hash function, the answer of SES, the handlers of jobs,
-- the authorization of agent policies, what DNS and SES probes found, Django's field validators,
-- Python's casefold and isspace, the answers of Stripe, and what the agent's language model proposes.
--
-- Not modelled: the HTTP, web and MCP layers, MIME, S3, DNS and Stripe calls, deployment, the texts of
-- notifications and audit metadata, provisioning, the storing and threading of inbound mail, digests, and
-- the prompts of the agent.
pub mod Common
pub mod Settings
pub mod Digest
pub mod Accounts
pub mod Drafts
pub mod Database
pub mod Outbound
pub mod Jobs
pub mod Setup
pub mod Capacity
pub mod Routing
pub mod Mailbox
pub mod Handling
pub mod Billing
pub mod Ingestion
pub mod Replies
pub mod Samples
