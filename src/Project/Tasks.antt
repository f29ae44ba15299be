-- ===== src/Project/Tasks.antt =====
-- The tasks of a project, in src/project/services/project.service.ts.
pub mod Resource
pub mod Handlers
pub mod Subtasks
pub mod Authorization
pub mod Creator
pub mod Creation
pub mod Listing
