-- ===== src/Auth.antt =====
-- internal/application/operatoraccountauth: phone authentication of operator accounts.
pub mod Phone
pub mod Errors
pub mod Challenge
pub mod Diagnosis
pub mod Ports
pub mod Lifecycle
pub mod Registry
pub mod Methods
pub mod Operation
pub mod Submission
pub mod Requests
pub mod Start
pub mod History
