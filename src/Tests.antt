-- ===== src/Tests.antt =====
-- Runs of the code on small inputs, and each theorem applied to one of them.
mod Data
mod Tally
mod Audit
mod Access
mod Reviewers
mod Admin
mod Sync
