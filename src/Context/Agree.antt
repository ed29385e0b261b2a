-- ===== src/Context/Agree.antt =====
-- That both selections of src/agent_runtime/context.py give the same result: a reference for the
-- scan of messages, and each selection in its terms.
pub mod Entries
pub mod Reference
pub mod Scanned
pub mod Sums
pub mod Slots
pub mod Greedy
pub mod Shape
pub mod Held
pub mod Marks
pub mod Chosen
pub mod Concluded
pub mod Selected
pub mod Selects
pub mod Shown
pub mod Streamed
pub mod Follows
pub mod Streams
pub mod Finished
pub mod Equal
