-- ===== src/Gatepass.antt =====
-- internal/gatepass: drafts, the workflow of a pass, and its store.
pub mod Domain
pub mod Numbering
pub mod Rows
pub mod Store
pub mod Calls
pub mod Detail
pub mod Register
pub mod Invariant
