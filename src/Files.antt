-- ===== src/Files.antt =====
-- agent/python/ocs_agent/profile.py and agent/python/ocs_agent/config.py: the files that an Agent is
-- started from.
pub mod Objects
pub mod Ensures
pub mod Model
pub mod Capabilities
pub mod Deployment
pub mod Config
pub mod Endpoints
pub mod Laws
pub mod Open
pub mod Accepted
pub mod Unique
pub mod Indexed
