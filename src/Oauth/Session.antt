-- ===== src/Oauth/Session.antt =====
-- server/src/oauth/session.ts: the authorization server's own browser sessions. Times are in
-- milliseconds; an age in seconds is rounded as PostgreSQL's cast to int does.
pub mod Windows
pub mod Ends
mod Tests
use mcp_ui.Common.{
  ℕ, ◌+◌, ◌-◌, ◌/◌, String, Bool, ◌&&◌, not, Option, none, some, List, ◌∷◌, ltb, ◌==◌, string_eq,
  if◌then◌else◌, min,
}
use mcp_ui.Common.Rows.{first, update}
use mcp_ui.Normalize.{Text}
use mcp_ui.Tokens.{TokenKind, mint, well_formed}
use mcp_ui.Oauth.Types.{Env, seconds, is_set, hash_of, digest}

abbrev pub as_session_idle_seconds : ℕ
as_session_idle_seconds = 1800

abbrev pub as_session_absolute_seconds : ℕ
as_session_absolute_seconds = 43200

pub record SessionRow : Type 0 where
  pub id_hash : String
  pub account_id : String
  pub auth_time : ℕ
  pub acr : String
  pub idle_expires_at : ℕ
  pub absolute_expires_at : ℕ
  pub revoked_at : Option ℕ

pub record AsSession : Type 0 where
  pub account_id : String
  pub auth_time : ℕ
  pub auth_age_seconds : ℕ
  pub acr : String

abbrev pub new_session : Env → ℕ → Text → String → String → SessionRow
new_session env now token account_id acr = record {
  id_hash = digest env token;
  account_id = account_id;
  auth_time = now;
  acr = acr;
  idle_expires_at = now + seconds as_session_idle_seconds;
  absolute_expires_at = now + seconds as_session_absolute_seconds;
  revoked_at = none;
}

-- `startAsSession`; the body of the token is drawn at random.
unfoldable pub start_as_session :
    Env → ℕ → Text → String → String → List SessionRow → Text × List SessionRow
start_as_session env now random account_id acr rows =
    let token = mint env.crc32 TokenKind.session random in
    (token, new_session env now token account_id acr ∷ rows)

-- The WHERE of the UPDATE.
abbrev pub live : Env → ℕ → Text → SessionRow → Bool
live env now token row =
    hash_of env token row.id_hash
    && (not (is_set row.revoked_at)
        && (ltb now row.idle_expires_at && ltb now row.absolute_expires_at))

-- Its SET.
abbrev pub extended : ℕ → SessionRow → SessionRow
extended now row = record row {
  idle_expires_at = min (now + seconds as_session_idle_seconds) row.absolute_expires_at;
}

abbrev pub session_of : ℕ → Option SessionRow → Option AsSession
session_of now none = none
session_of now (some row) = some (record {
  account_id = row.account_id;
  auth_time = row.auth_time;
  auth_age_seconds = (now - row.auth_time + 500) / 1000;
  acr = row.acr;
})

-- `readAsSession`; the SET leaves the columns that are returned as they were.
unfoldable pub read_as_session :
    Env → ℕ → Option Text → List SessionRow → Option AsSession × List SessionRow
read_as_session env now none rows = (none, rows)
read_as_session env now (some token) rows =
    if well_formed env.crc32 TokenKind.session token
    then (
      session_of now (first (live env now token) rows),
      update (live env now token) (extended now) rows,
    )
    else (none, rows)

abbrev pub revoked : ℕ → SessionRow → SessionRow
revoked now row = record row { revoked_at = some now }

-- `revokeAsSession`
unfoldable pub revoke_as_session : Env → ℕ → Option Text → List SessionRow → List SessionRow
revoke_as_session env now none rows = rows
revoke_as_session env now (some token) rows =
    if well_formed env.crc32 TokenKind.session token
    then update (λ r. hash_of env token r.id_hash && not (is_set r.revoked_at)) (revoked now) rows
    else rows

-- `revokeAllAsSessions`
unfoldable pub revoke_all_as_sessions : ℕ → String → List SessionRow → List SessionRow
revoke_all_as_sessions now account_id rows =
    update (λ r. r.account_id == account_id && not (is_set r.revoked_at)) (revoked now) rows
