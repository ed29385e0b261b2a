-- ===== src/Runs.antt =====
-- src/agent_runtime/runs: durable runs, fenced ownership and one live turn per thread.
pub mod Rows
pub mod Claim
pub mod Settle
pub mod Recover
pub mod History
pub mod Commits
pub mod Invariant
pub mod Schedule
pub mod Safety
pub mod Steps
pub mod Arbitration
pub mod Fencing
pub mod Takeover
pub mod Outcomes
pub mod Sweep
pub mod ClaimSteps
