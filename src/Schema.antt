-- ===== src/Schema.antt =====
-- The tables of src/prisma/schema.prisma. A row holds its columns but the key `id`, under which it is
-- stored, and the times `createdAt` and `updatedAt`, which the database fills in and the services
-- only sort by.
mod Accounts
mod Projects
mod Tasks
pub use Accounts.*
pub use Projects.*
pub use Tasks.*
