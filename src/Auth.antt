-- ===== src/Auth.antt =====
-- Package internal/auth: user names and PINs, accounts, and the limit on failed logins.
pub mod Pin
pub mod Users
pub mod Limiter
