-- ===== src/Audit.antt =====
-- apps/edge/src/audit-chain.ts: the hash-linked chains of audit events, their verification, forks and
-- alerts.
pub mod Hash
pub mod Events
pub mod Chain
pub mod Verify
pub mod Dag
pub mod Alerts
