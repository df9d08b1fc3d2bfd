-- ===== src/Oauth/Verify.antt =====
-- server/src/oauth/verify.ts: access tokens at the resource server. `touchGrant` only writes when
-- a grant was last used, which nothing modelled reads, and is left out.
pub mod Sound
use mcp_ui.Common.{
  ℕ, ◌+◌, ◌-◌, ◌/◌, String, Bool, true, false, ◌&&◌, not, Option, none, some, List, [], ◌∷◌, ltb,
  ◌==◌, string_eq, if◌then◌else◌,
}
use mcp_ui.Common.Rows.{first, select}
use mcp_ui.Normalize.{Text}
use mcp_ui.Tokens.{TokenKind, well_formed}
use mcp_ui.Oauth.Scope.{words, is_blank, includes}
use mcp_ui.Oauth.Types.{AccessRow, GrantRow, Tables, Env, hash_of}
use mcp_ui.Oauth.Grants.{grant_at, grant_live}

pub record Verified : Type 0 where
  pub account_id : String
  pub client_id : String
  pub grant_id : String
  pub scopes : List Text
  pub expires_in : ℕ
  pub cnf_jkt : Option String

pub data VerifiedToken : Type 0 where
  verified : Verified → VerifiedToken
  invalid_token : VerifiedToken
  insufficient_scope : String → List Text → List Text → VerifiedToken

-- `requiredScopes.filter((scope) => !granted.includes(scope))`
abbrev pub missing : List Text → List Text → List Text
missing required granted = select (λ scope. not (includes granted scope)) required

-- The row that the query selects: known, unexpired, of a grant that is not revoked.
abbrev pub live_row : Env → ℕ → Text → Tables → Option AccessRow
live_row env now token t =
    first (λ a. hash_of env token a.token_hash && (ltb now a.expires_at && grant_live t a.grant_id))
      t.access_tokens

unfoldable pub checked : ℕ → String → List Text → AccessRow → GrantRow → VerifiedToken
checked now audience required row grant =
    let granted = words is_blank row.scope in
    if row.audience == audience
    then elim (missing required granted) [
      | [] ↦ verified (record {
        account_id = grant.account_id;
        client_id = grant.client_id;
        grant_id = row.grant_id;
        scopes = granted;
        expires_in = (row.expires_at - now + 500) / 1000;
        cnf_jkt = row.cnf_jkt;
      })
      | _ ∷ _ ↦ insufficient_scope row.grant_id granted required
    ]
    else invalid_token

-- `verifyOAuthAccessToken`
unfoldable pub verify_access_token :
    Env → ℕ → String → Option Text → List Text → Tables → VerifiedToken
verify_access_token env now audience none required t = invalid_token
verify_access_token env now audience (some token) required t =
    if well_formed env.crc32 TokenKind.access token
    then elim (live_row env now token t) [
      | none ↦ invalid_token
      | some row ↦ elim (grant_at t row.grant_id) [
        | none ↦ invalid_token
        | some grant ↦ checked now audience required row grant
      ]
    ]
    else invalid_token
