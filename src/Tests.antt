-- ===== src/Tests.antt =====
-- Runs of the definitions on concrete inputs.
mod Data
mod Policy
mod Passes
mod Accounts
mod Requests
mod Records
mod Files
mod Forms
mod Upgrades
