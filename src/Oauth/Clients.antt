-- ===== src/Oauth/Clients.antt =====
-- server/src/oauth/clients.ts: who a client is and where it may be sent to.
pub mod Urls
pub mod CacheControl
pub mod Forbidding
pub mod Reuse
pub mod Redirects
pub mod Registration
pub mod Pinned
pub mod Resolve
mod Tests
