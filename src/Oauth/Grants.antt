-- ===== src/Oauth/Grants.antt =====
-- server/src/oauth/store.ts: the tokens of a grant, its creation and its revocation. A drawn token
-- is taken not to be in the table already. The three parts of a revocation are one transaction.
use mcp_ui.Common.{
  ℕ, ◌+◌, String, Bool, false, ◌&&◌, not, Option, none, some, ◌∷◌, ◌==◌, string_eq, if◌then◌else◌,
}
use mcp_ui.Common.Rows.{first, update, delete}
use mcp_ui.Normalize.{Text}
use mcp_ui.Tokens.{TokenKind, mint, well_formed}
use mcp_ui.Oauth.Types.{
  GrantRow, AccessRow, RefreshRow, Tables, Env, Draws, seconds, is_set, hash_of, digest,
}

pub data TokenType : Type 0 where
  dpop bearer : TokenType

pub record IssuedTokens : Type 0 where
  pub access_token : Text
  pub refresh_token : Option Text
  pub token_type : TokenType
  pub expires_in : ℕ
  pub scope : Text

-- `issueTokens`
unfoldable pub issue_tokens :
    Env → ℕ → Draws → String → String → Text → Bool → Option String → Tables → IssuedTokens × Tables
issue_tokens env now draws grant_id audience scope with_refresh cnf_jkt t =
    let access_token = mint env.crc32 TokenKind.access draws.access in
    let refresh_token = mint env.crc32 TokenKind.refresh draws.refresh in
    let lifetime =
      if audience == env.api_resource then env.native_access_token_ttl_seconds else 3600 in
    let access_row : AccessRow = record {
      token_hash = digest env access_token;
      grant_id = grant_id;
      audience = audience;
      scope = scope;
      cnf_jkt = cnf_jkt;
      expires_at = now + seconds lifetime;
    } in
    let refresh_row : RefreshRow = record {
      token_hash = digest env refresh_token;
      grant_id = grant_id;
      audience = audience;
      scope = scope;
      expires_at = now + seconds 2592000;
      replaced_by = none;
      replaced_at = none;
      revoked_at = none;
    } in
    (
      record {
        access_token = access_token;
        refresh_token = if with_refresh then some refresh_token else none;
        token_type = if is_set cnf_jkt then dpop else bearer;
        expires_in = lifetime;
        scope = scope;
      },
      record t {
        access_tokens = access_row ∷ t.access_tokens;
        refresh_tokens = if with_refresh then refresh_row ∷ t.refresh_tokens else t.refresh_tokens;
      },
    )

-- `revokeGrant`, and `revokeGrantNow`.
unfoldable pub revoke_grant : ℕ → String → Tables → Tables
revoke_grant now grant_id t = record t {
  grants =
      update (λ g. g.id == grant_id && not (is_set g.revoked_at))
        (λ g. record g { revoked_at = some now }) t.grants;
  access_tokens = delete (λ a. a.grant_id == grant_id) t.access_tokens;
  refresh_tokens =
      update (λ r. r.grant_id == grant_id && not (is_set r.revoked_at))
        (λ r. record r { revoked_at = some now }) t.refresh_tokens;
}

pub record NewGrant : Type 0 where
  pub code : Text
  pub account_id : String
  pub client_id : String
  pub resource : String
  pub scope : Text
  pub with_refresh : Bool
  pub dpop_jkt : Option String

-- `establishGrant`
unfoldable pub establish_grant : Env → ℕ → Draws → NewGrant → Tables → IssuedTokens × Tables
establish_grant env now draws options t =
    let row : GrantRow = record {
      id = draws.grant_id;
      account_id = options.account_id;
      client_id = options.client_id;
      resource = options.resource;
      scope = options.scope;
      dpop_jkt = options.dpop_jkt;
      revoked_at = none;
    } in
    let created : Tables = record t {
      grants = row ∷ t.grants;
      codes =
          update (λ c. hash_of env options.code c.code_hash)
            (λ c. record c { grant_id = some draws.grant_id }) t.codes;
    } in
    issue_tokens env now draws draws.grant_id options.resource options.scope options.with_refresh
      options.dpop_jkt created

-- The grant that a token row joins.
abbrev pub grant_at : Tables → String → Option GrantRow
grant_at t id = first (λ g. g.id == id) t.grants

-- `g.revoked_at IS NULL` of that grant.
abbrev pub grant_live : Tables → String → Bool
grant_live t id = elim (grant_at t id) [ none ↦ false | some g ↦ not (is_set g.revoked_at) ]

-- `revokeByAccessToken`
unfoldable pub revoke_by_access_token : Env → ℕ → Text → Tables → Tables
revoke_by_access_token env now token t =
    if well_formed env.crc32 TokenKind.access token
    then elim (first (λ a. hash_of env token a.token_hash) t.access_tokens) [
      | none ↦ t
      | some a ↦ revoke_grant now a.grant_id t
    ]
    else t

-- `readRefreshToken`, as `revokeByRefreshToken` uses it: the row, where its grant exists.
abbrev pub refresh_row_of : Env → Text → Tables → Option RefreshRow
refresh_row_of env token t =
    first (λ r. hash_of env token r.token_hash && is_set (grant_at t r.grant_id)) t.refresh_tokens

unfoldable pub revoke_by_refresh_token : Env → ℕ → Text → Tables → Tables
revoke_by_refresh_token env now token t =
    if well_formed env.crc32 TokenKind.refresh token
    then elim (refresh_row_of env token t) [ none ↦ t | some r ↦ revoke_grant now r.grant_id t ]
    else t
