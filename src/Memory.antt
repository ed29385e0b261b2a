-- ===== src/Memory.antt =====
-- The conversation part of src/agent_runtime/memory/postgres.py.
pub mod Threads
pub mod History
pub mod Records
pub mod Recall
