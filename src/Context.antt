-- ===== src/Context.antt =====
-- src/agent_runtime/context.py: the selection of the initial context, over complete history
-- (`Select`) and over a stream of it (`Stream`).
pub mod Exchange
pub mod Select
pub mod Stream
pub mod Kept
pub mod Budget
pub mod Agree
