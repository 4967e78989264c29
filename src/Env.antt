-- ===== src/Env.antt =====
-- What the services run against: the tables, the stock cache, the message broker, and the state of
-- the process that they change.
pub mod Cache
pub mod Broker
mod State
mod Calls
pub mod Laws
pub mod Atomic
pub use State.*
unfoldable pub use Calls.*
