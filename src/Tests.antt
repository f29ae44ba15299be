-- ===== src/Tests.antt =====
-- The theorems at work: each is applied to concrete accounts, tokens and tables, where its
-- conditions hold.
mod Samples
mod Requests
mod Sessions
mod Ledger
mod Resets
mod Running
mod Races
mod Texts
mod Teams
mod Policies
mod Guards
mod Projects
mod Offices
mod Users
