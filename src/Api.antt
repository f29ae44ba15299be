-- ===== src/Api.antt =====
-- The interface: which guard each query, mutation and route stands behind, and what it calls.
pub mod Guards
pub mod Cookies
pub mod Sessions
pub mod Projects
pub mod Accounts
