-- ===== src/Model.antt =====
-- app/models.py: a data type for each column with a CHECK constraint, a record for each table's
-- row, the database as one table for each, and the SQL statements that the code builds.
mod Enums
mod Rows
mod Tables
pub mod Laws
pub use Enums.*
pub use Rows.*
unfoldable pub use Tables.*
