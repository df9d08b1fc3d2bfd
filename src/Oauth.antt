-- ===== src/Oauth.antt =====
-- server/src/oauth: the authorization server's store, the token endpoint and the verifier.
pub mod Scope
pub mod Types
pub mod Grants
pub mod Codes
pub mod Refresh
pub mod Verify
pub mod Token
pub mod Pushed
pub mod Sealed
pub mod Exchange
pub mod Prune
pub mod Usage
pub mod Params
pub mod Clients
pub mod Session
pub mod Consents
pub mod Authorize
pub mod Account
pub mod Fixtures
mod Tests
