-- ===== src/Oauth/Types.antt =====
-- The rows of the authorization server (server/src/db/migrations.ts) and what its code takes from
-- the configuration (server/src/oauth/config.ts) and from cryptography. Times are in milliseconds.
use mcp_ui.Common.{ℕ, ◌*◌, String, Bool, true, false, Option, none, some, List, ◌==◌, string_eq}
use mcp_ui.Common.Rows.{any}
use mcp_ui.Normalize.{Text}
use mcp_ui.Tokens.{Peppers, token_digest, token_digest_candidates}

pub record GrantRow : Type 0 where
  pub id : String
  pub account_id : String
  pub client_id : String
  pub resource : String
  pub scope : Text
  pub dpop_jkt : Option String
  pub revoked_at : Option ℕ

pub record AccessRow : Type 0 where
  pub token_hash : String
  pub grant_id : String
  pub audience : String
  pub scope : Text
  pub cnf_jkt : Option String
  pub expires_at : ℕ

pub record RefreshRow : Type 0 where
  pub token_hash : String
  pub grant_id : String
  pub audience : String
  pub scope : Text
  pub expires_at : ℕ
  pub replaced_by : Option String
  pub replaced_at : Option ℕ
  pub revoked_at : Option ℕ

pub record CodeRow : Type 0 where
  pub code_hash : String
  pub account_id : String
  pub client_id : String
  pub redirect_uri : String
  pub code_challenge : Text
  pub resource : String
  pub scope : Text
  pub offline_access : Bool
  pub auth_time : ℕ
  pub consent_id : Option String
  pub dpop_jkt : Option String
  pub expires_at : ℕ
  pub consumed_at : Option ℕ
  pub grant_id : Option String

pub data ClientKind : Type 0 where
  cimd dcr preregistered : ClientKind

pub data ClientTrust : Type 0 where
  verified unverified : ClientTrust

-- What `NewPendingAuthorization` holds, and both the row and `PendingAuthorization` with it.
pub record NewPendingAuthorization : Type 0 where
  pub client_id : String
  pub client_host : String
  pub client_kind : ClientKind
  pub client_trust : ClientTrust
  pub document_digest : Option String
  pub redirect_uri : String
  pub state : Option String
  pub code_challenge : Text
  pub resource : String
  pub scopes : List Text
  pub offline_access : Bool
  pub dpop_jkt : Option String
  pub first_party : Bool

pub record PendingAuthorization : Type 0 where
  pub id : String
  pub binding_digest : String
  pub request : NewPendingAuthorization

pub record PendingRow : Type 0 where
  pub id : String
  pub client_id : String
  pub client_host : String
  pub client_kind : ClientKind
  pub client_trust : ClientTrust
  pub document_digest : Option String
  pub redirect_uri : String
  pub state : Option String
  pub code_challenge : Text
  pub resource : String
  pub scope : Text
  pub offline_access : Bool
  pub binding_hash : String
  pub dpop_jkt : Option String
  pub first_party : Bool
  pub expires_at : ℕ

pub record Tables : Type 0 where
  pub grants : List GrantRow
  pub access_tokens : List AccessRow
  pub refresh_tokens : List RefreshRow
  pub codes : List CodeRow
  pub pending : List PendingRow

pub record Env : Type 0 where
  pub crc32 : Text → ℕ
  pub hmac : String → Text → String
  pub sha256_base64url : Text → Text
  pub peppers : Peppers
  -- `RESOURCE_URI` and `API_RESOURCE`.
  pub resource_uri : String
  pub api_resource : String
  pub native_access_token_ttl_seconds : ℕ
  pub refresh_grace_seconds : ℕ
  pub refresh_requires_offline_access : Bool

-- What one call draws at random: the bodies of its tokens and the id of its grant.
pub record Draws : Type 0 where
  pub access : Text
  pub refresh : Text
  pub grant_id : String

abbrev pub seconds : ℕ → ℕ
seconds n = n * 1000

abbrev pub is_set {ℓ} : {A : Type ℓ} → Option A → Bool
is_set none = false
is_set (some _) = true

-- `token_hash = ANY($1::text[])`
unfoldable pub hash_of : Env → Text → String → Bool
hash_of env token hash = any (λ c. c == hash) (token_digest_candidates env.hmac env.peppers token)

abbrev pub digest : Env → Text → String
digest env token = token_digest env.hmac env.peppers token
