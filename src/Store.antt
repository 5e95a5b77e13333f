-- ===== src/Store.antt =====
-- The database as the program sees it: the enumerations and rows of
-- backend/prisma/schema.prisma, the tables, and calls that read, write and fail.
mod Equality
mod Enums
mod Rows
mod Tables
pub mod Frame
pub mod Rules
pub use Equality.*
pub use Enums.*
pub use Rows.*
unfoldable pub use Tables.*
