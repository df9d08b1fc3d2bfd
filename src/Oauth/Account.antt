-- ===== src/Oauth/Account.antt =====
-- server/src/oauth/account.ts: what a signed-in person may undo. The message that tells the other
-- processes is left out.
pub mod SignedOut
mod Tests
use mcp_ui.Common.{
  ℕ, String, Bool, true, false, ◌&&◌, not, Option, none, some, List, [], ◌∷◌, ◌==◌, string_eq,
  if◌then◌else◌,
}
use mcp_ui.Common.Rows.{select, any, update}
use mcp_ui.Normalize.{Text, Unicode}
use mcp_ui.Errors.{unauthenticated, validation_failed, throw_code, throw_field}
use mcp_ui.Exec.{Result, ok, err, Exec}
use mcp_ui.Accounts.{
  AccountRow, Account, Passwords, hash_password, validate_password, verify_credentials, get_account,
}
use mcp_ui.Oauth.Types.{GrantRow, Tables, is_set}
use mcp_ui.Oauth.Grants.{revoke_grant}
use mcp_ui.Oauth.Session.{SessionRow, revoke_all_as_sessions}

pub record AccountState : Type 0 where
  pub tables : Tables
  pub sessions : List SessionRow
  pub accounts : List AccountRow

abbrev pub live_grant_of : String → GrantRow → Bool
live_grant_of account_id g = g.account_id == account_id && not (is_set g.revoked_at)

-- `revokeConnectedApp`
unfoldable pub revoke_connected_app : ℕ → String → String → Tables → Bool × Tables
revoke_connected_app now account_id grant_id t =
    if any (λ g. g.id == grant_id && live_grant_of account_id g) t.grants
    then (true, revoke_grant now grant_id t)
    else (false, t)

-- `for (const { id } of rows) await revokeGrant(tx, id)`
unfoldable pub revoke_each : ℕ → List GrantRow → Tables → Tables
revoke_each now [] t = t
revoke_each now (g ∷ gs) t = revoke_each now gs (revoke_grant now g.id t)

-- `signOutEverywhere`
unfoldable pub sign_out_everywhere : ℕ → String → AccountState → AccountState
sign_out_everywhere now account_id s = record s {
  tables = revoke_each now (select (live_grant_of account_id) s.tables.grants) s.tables;
  sessions = revoke_all_as_sessions now account_id s.sessions;
}

abbrev with_password : Passwords → Text → Text → AccountRow → AccountRow
with_password p salt password row =
    let hashed = hash_password p salt password in
    record row { password_hash = hashed.encoded; password_pepper_version = hashed.pepper_version }

abbrev after_new : Passwords → ℕ → Text → String → Result Text → Exec AccountState (Unit {0})
after_new p now salt account_id (err e) s = (err e, s)
after_new p now salt account_id (ok password) s =
    let changed = record s {
      accounts = update (λ r. r.id == account_id) (with_password p salt password) s.accounts;
    } in
    (ok tt, sign_out_everywhere now account_id changed)

abbrev after_current :
    Passwords → ℕ → Text → String → Option Account → Result Text → Exec AccountState (Unit {0})
after_current p now salt account_id none next s =
    (err (throw_field validation_failed "Your current password is not right." "currentPassword"), s)
after_current p now salt account_id (some _) next s = after_new p now salt account_id next s

abbrev after_account :
    Unicode
    → Passwords
    → ℕ
    → Text
    → String
    → Option Text
    → Option Text
    → Option Account
    → Exec AccountState (Unit {0})
after_account u p now salt account_id current next none s = (err (throw_code unauthenticated), s)
after_account u p now salt account_id current next (some account) s =
    after_current p now salt account_id
      (verify_credentials u p (some account.username) current s.accounts) (validate_password next) s

-- `changePassword`; the salt is drawn at random.
unfoldable pub change_password :
    Unicode
    → Passwords
    → ℕ
    → Text
    → String
    → Option Text
    → Option Text
    → Exec AccountState (Unit {0})
change_password u p now salt account_id current next s =
    after_account u p now salt account_id current next (get_account account_id s.accounts) s
