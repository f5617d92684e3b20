-- ===== src/Disconnect.antt =====
-- internal/application/operatoraccounts: disconnecting an operator account and its remote session.
pub mod Outcome
pub mod Ports
pub mod Service
pub mod Recovery
