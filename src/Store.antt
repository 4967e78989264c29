-- ===== src/Store.antt =====
-- The database behind gorm, which is not code of this repository: the interface of a table with the
-- documented behaviour of the calls that internal/service makes, and a table in memory that
-- has this behaviour.
pub mod Rows
pub mod Table
pub mod Sums
pub mod Effects
pub mod Evolution
pub mod Memory
