-- ===== src/Internal.antt =====
-- server/src/security/workload.ts, oauth/exchange.ts, exchange-client.ts and device-service: how an
-- edge reaches the Device Service.
pub mod Workload
pub mod Exchange
pub mod Service
pub mod Accepted
pub mod Cache
pub mod Held
mod Tests
mod CacheTests
