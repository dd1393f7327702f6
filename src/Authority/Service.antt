-- ===== src/Authority/Service.antt =====
-- `AuthorityService` of packages/digi-authority/src/service.ts, an operation to a module.
pub mod Env
pub mod Check
pub mod Approve
pub mod Issue
pub mod Use
