-- ===== src/Oauth/Authorize.antt =====
-- server/src/oauth/authorize.ts: the authorization endpoint and the steps behind it.
pub mod Request
pub mod Checked
pub mod Redirects
pub mod Steps
pub mod Routes
pub mod Consent
pub mod Issued
mod Tests
