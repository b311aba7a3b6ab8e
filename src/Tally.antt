-- ===== src/Tally.antt =====
-- apps/edge/src/tally.ts: the import of Tally CSV exports and the reconciliation of purchase orders
-- with receipts.
pub mod Csv
pub mod Units
pub mod Columns
pub mod Floats
pub mod Import
pub mod Deltas
