-- ===== src/Delivery.antt =====
-- internal/application/commands/delivery: the failure taxonomy and the run reconciliation rule.
pub mod Failures
pub mod Reconcile
