-- ===== src/Approval.antt =====
-- The approval of a new device: apps/api/src/modules/device-approval/fsm.ts and the statuses of
-- packages/shared/src/index.ts.
pub mod Machine
pub mod Desk
pub mod Progress
pub mod Table
pub mod Columns
pub mod Moves
pub mod Lifecycle
pub mod Expiry
mod Examples
