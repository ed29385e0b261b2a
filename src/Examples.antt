-- ===== src/Examples.antt =====
-- Concrete inputs for the theorems: tables, requests, model clients and stores on which their
-- hypotheses hold.
pub mod Tables
mod Schedules
mod Ownership
mod Claims
mod Invocations
mod Loops
mod Windows
mod Appended
mod Recalled
mod Tooling
mod Sweeps
mod Feedbacks
mod Responses
mod Served
