-- ===== src/Base/Table.antt =====
-- A database table as a list of rows with a numeric primary key.
mod Defs
mod Laws
unfoldable pub use Defs.*
pub use Laws.*
