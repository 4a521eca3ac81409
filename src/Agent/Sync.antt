-- ===== src/Agent/Sync.antt =====
-- The Agent's promise: while it reports `ready`, the device holds the pairs of its connections or of
-- Debug Mode, over any backend that keeps its contract.
pub mod Program
pub mod Write
pub mod ModeSwitch
pub mod Recovery
pub mod Reconcile
pub mod Startup
pub mod Run
