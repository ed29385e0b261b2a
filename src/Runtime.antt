-- ===== src/Runtime.antt =====
-- src/agent_runtime/runtime.py: one invocation across the registry, policy and persistence.
pub mod Action
pub mod Protocol
pub mod Execute
pub mod Deadline
pub mod Replay
pub mod Settlement
pub mod Durable
pub mod Stored
pub mod Lawful
pub mod Postgres
pub mod Reads
pub mod Composed
