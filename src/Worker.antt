-- ===== src/Worker.antt =====
-- internal/entrypoint/background/deliveryworker: the worker that executes claimed deliveries.
pub mod Config
pub mod Tracker
pub mod Faults
pub mod State
pub mod Coordinator
pub mod Run
pub mod Lives
pub mod Slots
pub mod Shutdown
