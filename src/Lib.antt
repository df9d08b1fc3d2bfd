-- ===== src/Lib.antt =====
-- The IoT switch server (server/src): devices that a person switches on and off, reached through
-- a REST API and through MCP tools, behind an OAuth 2.1 authorization server of its own.
--
-- The parts and their files. `Devices` is server/src/domain/devices.ts (`addDevice`,
-- `listDevices`, `getDevice`, `controlDevice`) with its audit records (domain/audit.ts);
-- `Normalize` is normalize.ts; `Errors` is errors.ts; `Exec` is the transaction of db/index.ts
-- and db/pg.ts. `Accounts` is domain/accounts.ts with the record format of password.ts. `Tokens`
-- is tokens/format.ts and tokens/hash.ts. `Oauth.Codes`, `Oauth.Grants` and `Oauth.Refresh` are
-- oauth/store.ts, `Oauth.Verify` is oauth/verify.ts, `Oauth.Token` is the code exchange of
-- oauth/token.ts with the PKCE check of oauth/crypto.ts, `Oauth.Exchange` its refresh exchange
-- over `Oauth.Sealed` (oauth/sealed.ts), `Oauth.Pushed` and `Oauth.Prune` the pushed requests and
-- the pruning of oauth/store.ts, `Oauth.Params` scope parameters (oauth/config.ts).
-- `Oauth.Clients` is oauth/clients.ts (registration, redirect URIs, metadata documents,
-- `resolveClient`), `Oauth.Consents` is oauth/consents.ts, `Oauth.Session` is oauth/session.ts,
-- `Oauth.Authorize` is oauth/authorize.ts (the checks of a request and the routes but those of
-- passkeys, over one state, with `macMatches` of security/mac.ts), `Oauth.Account` is
-- `revokeConnectedApp`, `signOutEverywhere` and `changePassword` of oauth/account.ts.
-- `WriteBudgets` is write-budgets.ts. `Dpop` is oauth/dpop.ts, `Replay` is security/replay.ts,
-- `RateLimit` is security/rate-limit.ts. `Mcp.Policy`, `Mcp.Gate` and `Mcp.Tools` are
-- mcp/policy.ts, mcp/gate.ts and the handlers of mcp/tools.ts. `Internal` is security/workload.ts, oauth/exchange.ts, device-service/verify.ts,
-- device-service/service.ts, exchange-client.ts and the events of revocation.ts.
--
-- How they interact. The authorization endpoint resolves a client, reads the browser's session
-- and the recorded consents, and mints a code; the token endpoint consumes codes and issues and
-- revokes the tokens that the verifier reads. The gate reads the policy, asks the verifier, counts
-- the request against a limit and checks the proof of a bound token. A tool of an adapter
-- spends a write budget and trades the verified token for an internal one, with which the device
-- service calls the device rules.
--
-- How the code is read. A database table is a list of rows and a statement a function on it
-- (`Common.Rows`); an INSERT puts its row first. An operation takes its tables and returns its
-- answer and the tables it leaves; a transaction that fails leaves what it found. The awaits of
-- one call are done before the next call begins, so a row lock has no effect. A JavaScript
-- string whose characters matter is its list of UTF-16 code units, other strings are compared
-- only. Times are natural numbers of milliseconds. A version is a natural number: the 4-byte
-- integer of the column and its overflow are left out. Loops are recursion on lists, so no fuel
-- is used.
--
-- Parameters, for code outside the repository: the Unicode tables, SHA-256, HMAC, CRC-32, Argon2,
-- random bytes, AES-GCM, signing and verifying of a JWT, thumbprints, URL and JSON parsing,
-- ipaddr.js, DNS, HTTPS and the database's order of texts. A token drawn at random is taken not to
-- be stored already where a theorem needs it, and says so.
--
-- The verifier's call of `touchGrant` is left out of `Oauth.Verify`, since nothing modelled
-- reads what it writes; `Oauth.Usage` models it on its own (oauth/grant-usage.ts).
--
-- Not modelled: foreign keys, metrics and logs, the HTML of the pages, the WebAuthn routes of
-- oauth/passkeys.ts (a library does their checks), the list of connected apps, static metadata
-- documents, the registration of MCP tools and their user interface, the HTTP layer and its
-- cookies, the split into processes with its remote calls, Redis stores, key files and KMS, the
-- iOS app and the acceptance tests.
pub mod Common
pub mod Errors
pub mod Exec
pub mod Normalize
pub mod Tokens
pub mod Oauth
pub mod Dpop
pub mod Mcp
pub mod Devices
pub mod RateLimit
pub mod Replay
pub mod Tests
pub mod Accounts
pub mod Internal
pub mod WriteBudgets
