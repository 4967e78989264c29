-- ===== src/Tests.antt =====
-- Concrete surroundings for internal/service, and the theorems at concrete inputs.
pub mod Server
pub mod Queue
pub mod Shop
pub mod Stock
pub mod Orders
pub mod Payments
pub mod Queues
pub mod Users
pub mod Addresses
pub mod Accounts
pub mod Administrator
pub mod Numbers
pub mod Limits
pub mod Catalog
pub mod Database
pub mod Configs
pub mod Loads
pub mod Routes
