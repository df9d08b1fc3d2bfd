-- ===== src/Devices.antt =====
-- The device rules of server/src/domain/devices.ts.
pub mod Types
pub mod Add
pub mod Read
pub mod Control
pub mod Versions
pub mod Effects
pub mod Invariant
pub mod Isolation
pub mod Idempotency
pub mod Run
pub mod Retries
pub mod Conflicts
mod Tests
