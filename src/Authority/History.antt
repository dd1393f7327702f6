-- ===== src/Authority/History.antt =====
-- How the state of the service changes over any run of its operations.
pub mod Evolution
pub mod Collisions
pub mod Actions
pub mod Calls
pub mod Operations
pub mod Answers
pub mod Runs
