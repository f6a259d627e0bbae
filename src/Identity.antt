-- ===== src/Identity.antt =====
-- The identity crate: accounts, cookies, client credentials and WebID links, each in memory.
mod Tests
pub mod Cookies
pub mod Credentials
pub mod Accounts
pub mod WebIds
pub mod Pods
