-- ===== src/Oauth/Account/Tests.antt =====
-- Concrete runs of "sign out everywhere".
use mcp_ui.Common.{◌≡◌, ◌≢◌, refl, String, none, some, [], ◌∷◌, nat_eq, string_eq}
use mcp_ui.Common.Rows.{first, any, every, update, delete, select}
use mcp_ui.Tokens.{
  TokenKind, mint, well_formed, length, take, drop, starts_with, is_base64url, base62_digit,
  base62_from, checksum, prefix, letters, token_digest, token_digest_candidates,
}
use mcp_ui.Oauth.Fixtures.{env, token_of}
use mcp_ui.Oauth.Scope.{split_words}
use mcp_ui.Oauth.Types.{GrantRow, AccessRow, hash_of}
use mcp_ui.Oauth.Grants.{revoke_grant}
use mcp_ui.Oauth.Verify.{Verified, verified, verify_access_token, checked}
use mcp_ui.Oauth.Session.{SessionRow, AsSession, read_as_session, revoke_all_as_sessions}
use mcp_ui.Oauth.Account.{AccountState, revoke_each, sign_out_everywhere}
use mcp_ui.Oauth.Account.SignedOut.{signed_out-verify, signed_out-read}

abbrev grant : String → String → GrantRow
grant id account_id = record {
  id = id;
  account_id = account_id;
  client_id = "client";
  resource = "mcp";
  scope = 114 ∷ [];
  dpop_jkt = none;
  revoked_at = none;
}

abbrev access : String → String → AccessRow
access token_hash grant_id = record {
  token_hash = token_hash;
  grant_id = grant_id;
  audience = "mcp";
  scope = 114 ∷ [];
  cnf_jkt = none;
  expires_at = 9000;
}

abbrev session_row : String → String → SessionRow
session_row id_hash account_id = record {
  id_hash = id_hash;
  account_id = account_id;
  auth_time = 1000;
  acr = "pwd";
  idle_expires_at = 1801000;
  absolute_expires_at = 43201000;
  revoked_at = none;
}

-- Two people with a grant and a session each.
abbrev state : AccountState
state = record {
  tables = record {
    grants = grant "g1" "alice" ∷ grant "g2" "bob" ∷ [];
    access_tokens = access "A" "g1" ∷ access "B" "g2" ∷ [];
    refresh_tokens = [];
    codes = [];
    pending = [];
  };
  sessions = session_row "A" "alice" ∷ session_row "B" "bob" ∷ [];
  accounts = [];
}

abbrev caller : Verified
caller = record {
  account_id = "bob";
  client_id = "client";
  grant_id = "g2";
  scopes = (114 ∷ []) ∷ [];
  expires_in = 7;
  cnf_jkt = none;
}

-- The other person's token still works.
verified_run :
    verify_access_token env 2000 "mcp"
      (some (token_of TokenKind.access 66))
      []
      (sign_out_everywhere 1500 "alice" state).tables
    ≡ verified caller
unfolding sign_out_everywhere revoke_each revoke_grant verify_access_token checked split_words first
    any every update delete select well_formed mint length take drop starts_with is_base64url
    base62_digit base62_from checksum prefix letters token_digest token_digest_candidates hash_of
verified_run = refl

signed_out-verify_example : caller.account_id ≢ "alice"
signed_out-verify_example =
    signed_out-verify 1500 "alice" env 2000 "mcp" (token_of TokenKind.access 66) [] state caller
      verified_run

abbrev visitor : AsSession
visitor = record { account_id = "bob"; auth_time = 1000; auth_age_seconds = 1; acr = "pwd" }

session_run :
    (read_as_session env 2000
      (some (token_of TokenKind.session 66))
      (sign_out_everywhere 1500 "alice" state).sessions).0
    ≡ some visitor
unfolding sign_out_everywhere revoke_all_as_sessions read_as_session first any every update
    well_formed mint length take drop starts_with is_base64url base62_digit base62_from checksum
    prefix letters token_digest token_digest_candidates hash_of
session_run = refl

signed_out-read_example : visitor.account_id ≢ "alice"
signed_out-read_example =
    signed_out-read 1500 "alice" env 2000 (token_of TokenKind.session 66) state visitor session_run
