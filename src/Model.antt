-- ===== src/Model.antt =====
-- internal/model/model.go: the rows of the tables, their statuses and unique indexes.
mod Status
mod Rows
pub mod Key
unfoldable pub use Status.*
pub use Rows.*
unfoldable pub use Key.*
