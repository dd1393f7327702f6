-- ===== src/Authority.antt =====
-- packages/digi-authority: what a Digi owner delegates to actors.
pub mod Types
pub mod Policy
pub mod Store
pub mod Claims
pub mod Tokens
pub mod Service
pub mod History
pub mod Revocation
pub mod Settlement
pub mod Actors
pub mod Admission
pub mod Replay
pub mod Decisions
pub mod Issuance
mod Examples
mod ScopeExamples
