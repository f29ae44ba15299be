-- ===== src/Access.antt =====
-- The access of a member to the resources of a project: the private helpers at the head of
-- src/project/services/project.service.ts.
mod Resources
mod Map
pub mod Policy
pub mod Effective
pub mod Laws
pub mod Precedence
pub mod Last
unfoldable pub use Resources.*
unfoldable pub use Map.*
