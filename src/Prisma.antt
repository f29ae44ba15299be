-- ===== src/Prisma.antt =====
-- What the program relies on of the Prisma client and the PostgreSQL database behind it: an
-- interface that the other modules take as a parameter, and the client's calls over it.
mod Interface
mod Delegate
pub mod Memory
pub mod Unique
pub use Interface.*
pub use Delegate.*
