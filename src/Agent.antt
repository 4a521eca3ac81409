-- ===== src/Agent.antt =====
-- `OcsAgent` of agent/python/ocs_agent/core.py. Each method is an action on the Agent's record,
-- which holds the device behind the backend too. The lock serialises the methods, so a run of the
-- Agent is a sequence of them.
pub mod State
pub mod Write
pub mod ModeSwitch
pub mod Requests
pub mod Recovery
pub mod Reconcile
pub mod Control
pub mod Startup
pub mod Guards
pub mod Keeps
pub mod Outcome
pub mod Refused
pub mod Locked
pub mod Switched
pub mod Run
pub mod Sync
