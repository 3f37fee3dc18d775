-- ===== src/Store.antt =====
-- The database: the rows of server/internal/model/model.go and of the tables that
-- server/internal/migrations creates, as one record of tables.
mod Rows
pub mod Tx
pub mod Keeps
pub mod Pools
pub use Rows.*
