-- ===== src/Native.antt =====
-- src/agent_runtime/adapters/native.py, with the model results of
-- src/agent_runtime/models_clients/base.py and their check in models_clients/_canonical.py.
pub mod Result
pub mod Loop
pub mod Agreement
pub mod Bound
