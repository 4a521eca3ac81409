-- ===== src/Http.antt =====
-- agent/python/ocs_agent/nbi/http.py: the HTTP interface of the Agent.
pub mod Message
pub mod Handler
pub mod Session
pub mod Reaches
pub mod Holds
pub mod Bounds
pub mod Rejects
pub mod Outcome
