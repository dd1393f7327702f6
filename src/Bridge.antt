-- ===== src/Bridge.antt =====
-- packages/digi-bridge: TrustID assertions exchanged for Digi sessions.
pub mod Types
pub mod Memory
pub mod Verify
pub mod Keys
pub mod Accepted
pub mod Exchange
pub mod Frame
pub mod Transaction
pub mod Once
mod Examples
mod Outage
