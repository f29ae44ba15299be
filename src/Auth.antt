-- ===== src/Auth.antt =====
-- src/auth: the service of sessions and passwords. The children are the life time of tokens, the
-- sessions, the reset of a password by a link, and the guard of projects.
pub mod Expiry
pub mod Session
pub mod Ledger
pub mod Race
pub mod Reset
pub mod Guard
