-- ===== src/Oauth/Exchange.antt =====
-- server/src/oauth/token.ts: `exchangeRefreshToken`, over the sealed answers of sealed.ts. The
-- in-memory store of sealed answers cannot fail, so a rotation is never rolled back by it.
pub mod Duplicate
use mcp_ui.Common.{ℕ, String, Bool, true, false, Option, none, some, ◌==◌, string_eq, if◌then◌else◌}
use Prim.Native.String.{◌++◌}
use mcp_ui.Common.Dict.{Dict}
use mcp_ui.Normalize.{Text}
use mcp_ui.Oauth.Types.{Tables, Env, Draws, digest}
use mcp_ui.Oauth.Grants.{IssuedTokens, TokenType}
use mcp_ui.Oauth.Refresh.{
  RefreshOutcome, rotated, replay, theft, invalid, RefreshRequest, rotate_refresh,
}
use mcp_ui.Oauth.Refresh.RefreshOutcome.{invalid_target, invalid_scope, invalid_dpop}
use mcp_ui.Oauth.Sealed.{Sealer, Entry, seal, unseal}
use mcp_ui.Oauth.Token.{Proof, TokenError}

-- The JSON body of a token answer.
pub record TokenBody : Type 0 where
  pub access_token : Text
  pub token_type : TokenType
  pub expires_in : ℕ
  pub refresh_token : Option Text
  pub scope : Text

-- `tokenBody`
unfoldable pub token_body : IssuedTokens → TokenBody
token_body tokens = record {
  access_token = tokens.access_token;
  token_type = tokens.token_type;
  expires_in = tokens.expires_in;
  refresh_token = tokens.refresh_token;
  scope = tokens.scope;
}

pub record RefreshTokenRequest : Type 0 where
  pub refresh_token : Option Text
  pub client_id : Option String
  pub resource : Option String
  pub scope : Option Text

pub data RefreshAnswer : Type 0 where
  answered : TokenBody → RefreshAnswer
  denied : TokenError → RefreshAnswer

pub record Server (Box : Type 0) : Type 0 where
  pub tables : Tables
  pub sealed : Dict (Entry Box)

-- `sealKey`
unfoldable pub seal_key : Env → String → Option Text → String
seal_key env client_id none = ""
seal_key env client_id (some token) = client_id ++ ":" ++ digest env token

abbrev pub rotation_of : Env → RefreshTokenRequest → String → Option String → RefreshRequest
rotation_of env request client_id jkt = record {
  client_id = client_id;
  resource = request.resource;
  scope = request.scope;
  grace_seconds = env.refresh_grace_seconds;
  presented_jkt = jkt;
}

module _ {Box : Type 0} (sealer : Sealer TokenBody Box) (env : Env) where
  -- What a sealed copy answers, or that it is gone.
  abbrev pub copied : Option TokenBody → RefreshAnswer
  copied none = denied TokenError.invalid_grant
  copied (some body) = answered body

  -- The `switch` on the outcome, with the seal that a rotation makes before its commit.
  unfoldable pub answer_outcome :
      ℕ → String → RefreshOutcome → Server Box → RefreshAnswer × Server Box
  answer_outcome now key (rotated issued) s = (
    answered (token_body issued),
    record s {
      sealed = seal sealer now key (token_body issued) env.refresh_grace_seconds s.sealed;
    },
  )
  answer_outcome now key replay s =
      let (body, sealed) = unseal sealer now key s.sealed in
      (copied body, record s { sealed = sealed })
  answer_outcome now key theft s = (denied TokenError.invalid_grant, s)
  answer_outcome now key (invalid _) s = (denied TokenError.invalid_grant, s)
  answer_outcome now key invalid_target s = (denied TokenError.invalid_target, s)
  answer_outcome now key invalid_scope s = (denied TokenError.invalid_scope, s)
  answer_outcome now key invalid_dpop s = (denied TokenError.invalid_dpop_proof, s)

  -- `answer_outcome` on what the rotation gave.
  abbrev pub answer_run :
      ℕ → String → RefreshOutcome × Tables → Server Box → RefreshAnswer × Server Box
  answer_run now key (outcome, t) s = answer_outcome now key outcome (record s { tables = t })

  -- `exchangeRefreshToken` once the client and its proof are known.
  unfoldable pub refresh :
      ℕ
      → Draws
      → RefreshTokenRequest
      → String
      → Option String
      → Server Box
      → RefreshAnswer × Server Box
  refresh now draws request client_id jkt s =
      answer_run now (seal_key env client_id request.refresh_token)
        (rotate_refresh env now draws request.refresh_token (rotation_of env request client_id jkt)
          s.tables)
        s

  -- `exchangeRefreshToken`
  unfoldable pub exchange_refresh_token :
      ℕ → Draws → RefreshTokenRequest → Proof → Server Box → RefreshAnswer × Server Box
  exchange_refresh_token now draws request proof s = elim request.client_id [
    | none ↦ (denied TokenError.invalid_request, s)
    | some client_id ↦
        if client_id == "" then (denied TokenError.invalid_request, s) else elim proof [
          | Proof.refused ↦ (denied TokenError.invalid_dpop_proof, s)
          | Proof.absent ↦ refresh now draws request client_id none s
          | Proof.proven jkt ↦ refresh now draws request client_id (some jkt) s
        ]
  ]
