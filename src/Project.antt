-- ===== src/Project.antt =====
-- src/project/services/project.service.ts: members, roles, departments, and the rows that say what
-- a role may do. Links to stored files, which `findOne` adds to its answer, are left out.
mod Lookup
pub mod Members
pub mod Roles
pub mod Departments
pub mod Placement
pub mod Calls
pub mod Tasks
pub mod Crud
pub mod WorkOrders
pub mod View
pub mod Rights
pub mod Policies
