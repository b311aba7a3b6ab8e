-- ===== src/Lib.antt =====
-- ChallanSe: receipts of construction sites. Devices photograph delivery receipts and upload them
-- to the edge Worker (apps/edge/src), which keeps sites, devices, receipts, upload sessions, an
-- audit chain and a property graph in a SQL database and the images in a bucket. Reviewers verify
-- the receipts there, import purchase orders from Tally and compare the two. This library models
-- the core of the Worker and the store from which a phone uploads.
--
-- - Prelude: names that all modules share; Boolean tests, lists as tables and their order, texts
--   and strings.
-- - Json: JSON values, `JSON.stringify` with and without an allow-list of keys, and the order of
--   texts (Json/Order).
-- - World: the rows of the tables (apps/edge/src/types.ts and the columns that the statements
--   write) and the actions of a handler. An action takes the world and gives an outcome and the
--   next world. An outcome is a value or an early stop: a response with its status and code, an
--   authentication error, or a statement that throws. What was written before a stop stays
--   written, as there are no transactions. The clock and the random identifiers are read by a
--   counter.
-- - Tally: apps/edge/src/tally.ts, with one module for each of `parseCsvLine` (Tally/Csv),
--   `normalizeUnit` (Tally/Units), `buildColumnMap` (Tally/Columns), `parseTallyCsv`
--   (Tally/Import, with the lines of a file in Tally/Import/Lines) and
--   `calculateReconciliationDeltas` (Tally/Deltas). Floating-point numbers are a parameter
--   (Tally/Floats).
-- - Audit: apps/edge/src/audit-chain.ts: `canonicalEvent` and `auditEventHash` (Audit/Hash), the
--   bodies of the events (Audit/Events), `getOrCreateChain`, `appendAuditEvent` and
--   `getChainStatus` (Audit/Chain), `verifyChain`, `verifyAllChains` and `detectChainForks`
--   (Audit/Verify), `verifyChainDag` (Audit/Dag) and the alerts (Audit/Alerts).
-- - Auth: apps/edge/src/auth.ts and the queries of apps/edge/src/db.ts that it uses.
-- - Graph: the writes of apps/edge/src/graph.ts, with the foreign keys of
--   apps/edge/migrations/0009_graph_nodes.sql.
-- - Uploads: apps/edge/src/handlers/uploads.ts: `handleCreateUpload` (Uploads/Create),
--   `handleUploadStatus` and `handleUploadPart` (Uploads/Part) and `handleCompleteUpload`
--   (Uploads/Complete).
-- - Devices: apps/edge/src/handlers/devices.ts: the token of a new device (Devices,
--   Devices/Token), `handleEnroll` and `handleBootstrap` (Devices/Enroll), with
--   `verifyPlayIntegrity` of apps/edge/src/auth.ts and `randomEnrollmentCode` of
--   apps/edge/src/security.ts.
-- - Reviewers: apps/edge/src/handlers/reviewers.ts: `handleReview` (Reviewers/Review),
--   `handleCreateInvoice` and `handleInvoiceImage` (Reviewers/Invoices), `handleAcceptMembership`
--   (Reviewers/Membership), and `handleReviewerContext`, `handleListReceipts` and
--   `handleReceiptImage` (Reviewers/Queries).
-- - Admin: apps/edge/src/handlers/admin.ts: sites and vendors (Admin/Sites), memberships,
--   invitations and managers (Admin/Members), enrolment codes and revocations (Admin/Devices),
--   quotas (Admin/Quotas), the verification and the pages of chains (Admin/Chains), and the
--   summary and the configuration (Admin/Summary).
-- - Sync: apps/mobile/src/sync/receiptSyncStore.ts, the tables in which a phone keeps the progress
--   of its uploads, and the backoff of apps/mobile/src/sync/receiptBackgroundSync.ts.
-- - Tests: small inputs, and each theorem applied to one of them.
--
-- A table is a list of rows in the order of insertion, and a statement is a function on it: WHERE
-- keeps rows, UPDATE rewrites them, ORDER BY is a stable sort. The platform is a record of
-- functions: SHA-256, random identifiers and bytes, the clock, the text of a time and its reading,
-- and `JSON.parse`. What a theorem needs of them is a hypothesis of the theorem: that hashes hold
-- no colon, or that a stored text gives its body back. A stored text is taken to be that of an
-- object, as the code writes it: a text of another JSON value, which only a change of the table
-- from outside could put there, is not modelled. The bucket is a record of its operations. Loops
-- are recursion on lists. Fuel is used twice: for the number of digits of a printed number, 21, up
-- to where the language prints a number in full, and for the queue of `verifyChainDag`, the square
-- of the number of events and two more, as an event is visited once and leaves at most as many
-- events as there are in the queue.
--
-- World/Frame says what it means that an action writes records only: the audit chain, the graph,
-- the identifiers and the clock. The handlers' theorems use it to carry the other tables past these
-- writes.
--
-- Not modelled: the import of orders, the reconciliation and the export among the handlers for
-- reviewers, the telemetry, the results of enrichment, the reads of the graph, the router, the
-- sending loop and the screens of the mobile application, the web applications, and what is not
-- TypeScript.
pub mod Prelude
pub mod Tally
pub mod Json
pub mod World
pub mod Audit
pub mod Auth
pub mod Graph
pub mod Uploads
pub mod Devices
pub mod Reviewers
pub mod Admin
pub mod Sync
pub mod Tests
