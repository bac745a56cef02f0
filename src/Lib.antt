-- ===== src/Lib.antt =====
-- Bevoac audits the cloud tenants of its customers. The API (bevoac-api-enterprise) reserves a scan in
-- PostgreSQL and queues a message; the worker (bevoac-worker-enterprise) takes the message from the
-- queue, acquires the scan, audits, stores the result, closes the scan with its billing, and settles
-- the message. This library models that life: the API's creation of a scan with its quotas, outbox and
-- monthly billing, and the worker's side.
--
-- Database has the tables scans, scan_attempts, scan_results and billing_usage_ledger, and the SQL
--   statements that several operations share.
-- Worker.Errors models bevoac-worker-enterprise/src/lib/worker-errors.js (classifyWorkerError is
--   classify_worker_error, and so on: names are the source's in another spelling).
-- Worker.Store models bevoac-worker-enterprise/src/services/scan-store.js, by operation (Begin, Marks,
--   Reject, Billing, Results), over the transactions of bevoac-worker-enterprise/src/lib/db-context.js
--   (Transaction). An operation maps the tables to an outcome and new tables; a transaction commits,
--   rolls back, or loses its connection before or after the commit.
-- Worker.Lifecycle says what the tables say of one scan (View), what each operation does to it, and the
--   moves that a scan can make under any history of calls by any workers.
-- Worker.Providers models bevoac-worker-enterprise/src/providers/provider-registry.js.
-- Worker.Processor models bevoac-worker-enterprise/src/services/message-processor.js. Environment holds
--   the message, the configuration and every answer of the environment (also the credential and
--   module test of azure-credentials.js and resource-preflight.js); Exec is asynchronous code that
--   writes tables, settles the message and may throw; Process is processScanMessage. Settles says when
--   a message may leave the queue, Outcomes what a run makes of scan and message.
-- Worker.Statuses models bevoac-worker-enterprise/src/lib/status-semantics.js, and Worker.Retry the
--   withRetry of bevoac-worker-enterprise/src/lib/retry.js: its loop is a recursion on the retries left.
-- Api.Outbox models bevoac-api-enterprise/src/services/outbox-service.js, with one publisher at work
--   (Publishes), and the lock of what it claims (Claims).
-- Api.Billing models the authorisation of a scan in bevoac-api-enterprise/src/services/
--   billing-service.js, and Api.Snapshots its monthly snapshots and the closing of a month.
-- Api.Providers models bevoac-api-enterprise/src/lib/cloud-provider-contract.js.
-- Worker.Scores models the counters and the scorecard of bevoac-worker-enterprise/src/lib/kpi-engine.js.
-- Api.RuntimeModes models bevoac-api-enterprise/src/lib/runtime-mode.js.
-- Api.Scans models the creation of a scan in bevoac-api-enterprise/src/services/scan-service.js, over
--   Api.Targets and Api.Hosts (lib/target-authorization.js), Api.Contract (lib/scan-contract.js and
--   lib/module-catalog.js), Api.CanonicalJson (lib/canonical-json.js), Api.Billing, Api.Snapshots and
--   Api.Outbox. Create is createScanRequest on every fate of its transaction; Traces and Runs take its
--   paths apart; the new scan is one of the worker's (Created), which takes it to
--   its end (Processed).
-- Worker.ResourceGraph models bevoac-worker-enterprise/src/lib/resource-graph.js. The loop over the
--   pages recurses on the pages that are left of maxPages.
-- Api.OnboardingState models bevoac-api-enterprise/src/lib/onboarding-state.js; the cryptography, base64url
--   and JSON of Node are a parameter (Crypto).
-- Worker.NetworkGuard models the addresses and URLs of bevoac-worker-enterprise/src/lib/network-guard.js.
-- Tests is a small database, and the theorems at it.
--
-- Numbers are natural numbers: UUIDs, times in seconds, amounts in cents. Texts are lists of UTF-16
-- units. Only the digits of a number (decimal) run on fuel, which is more than the number. Row
-- locks make the transactions on one scan run one after the other, so a transaction is one step,
-- and the work of several workers is a sequence of such steps (Worker.Lifecycle.Steps). In one run
-- of processScanMessage the transactions follow each other: those of other workers come before or
-- after it. JSON, the hash, the compression and the summary of a result are a parameter
-- (ResultCodec); the schema validator's verdict, Azure's count, the audit and the receiver's
-- behaviour are inputs.
--
-- Not modelled: logging, diagnostic metadata columns, the scanners, the HTTP routes and configuration,
-- the sessions of the onboarding, the pinned HTTPS requests, the user interface, reports and deployment:
-- they are calls of external services, drawing, or glue.
mod Prelude
pub mod Api
pub mod Database
pub mod Tests
pub mod Worker
