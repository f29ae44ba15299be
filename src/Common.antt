-- ===== src/Common.antt =====
-- src/common/services: the mail service, random passwords and the reset links.
pub mod Email
pub mod Password
