-- ===== src/World.antt =====
-- The state that the handlers share: the tables, the mails that were sent, and the entries of the
-- cache that blacklist a token.
mod Cascade
mod State
pub use State.*
unfoldable pub use Cascade.*
