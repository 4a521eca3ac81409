-- ===== src/Worker.antt =====
-- `DeviceBackendService` of agent/python/ocs_agent/device_worker.py: the process of the split profile
-- that owns the device. Its lock orders the calls, so each is an action on the state.
pub mod State
pub mod Apply
pub mod Recover
pub mod Run
pub mod Sync
pub mod Outcome
pub mod Fencing
