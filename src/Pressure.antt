-- ===== src/Pressure.antt =====
-- The load generator of cmd/pressure/main.go: the loops of its workers and the report of what they
-- measured. Its HTTP client is any function of a call's index.
pub mod Load
pub mod Calls
pub mod Within
pub mod Ends
pub mod Report
pub mod Sorted
pub mod Percentiles
pub mod Tally
pub mod Batches
pub mod Places
pub mod Verify
pub mod Answers
pub mod Verdict
