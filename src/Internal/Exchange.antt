-- ===== src/Internal/Exchange.antt =====
-- server/src/oauth/exchange.ts: an access token in, a one-minute internal token out. The signature
-- of the claims is a parameter. Times are in milliseconds, those of the claims in seconds.
use mcp_ui.Common.{ℕ, ◌+◌, ◌/◌, String, Option, none, some, [], ◌∷◌, leb, min, if◌then◌else◌}
use mcp_ui.Normalize.{Text}
use mcp_ui.Errors.{Failure, insufficient_scope, unauthenticated, app, app_error, throw_code}
use mcp_ui.Exec.{Result, ok, err}
use mcp_ui.Mcp.Policy.{Scope, scope_text}
use mcp_ui.Devices.Types.{Channel, mcp, native}
use mcp_ui.Oauth.Types.{Env, Tables, is_set}
use mcp_ui.Oauth.Verify.{VerifiedToken, verify_access_token}
use mcp_ui.Internal.Workload.{WorkloadName, mcp_rs, api_gw, Workload, Confirmation, workload_uri}

abbrev pub internal_audience : String
internal_audience = "https://device.internal"

abbrev pub internal_token_ttl_seconds : ℕ
internal_token_ttl_seconds = 60

pub record ExchangeRequest : Type 0 where
  pub workload : Workload
  pub subject_token : Text
  pub scope : Scope

-- The type of signed tokens is a parameter.
pub record ExchangedToken (T : Type 0) : Type 0 where
  pub token : T
  pub expires_in : ℕ
  pub grant_id : String

pub record Subject : Type 0 where
  pub account_id : String
  pub client_id : String
  pub grant_id : String
  pub channel : Channel
  pub auth_method : String
  pub expires_in : ℕ

pub record Claims : Type 0 where
  pub iss : String
  pub aud : String
  pub sub : String
  pub iat : ℕ
  pub exp : ℕ
  pub jti : String
  pub client_id : String
  pub grant_id : String
  pub scope : Scope
  pub channel : Channel
  pub auth_method : String
  pub act_sub : String
  pub cnf : Confirmation

-- 'Sign in to continue.'
abbrev pub sign_in_again : Failure
sign_in_again = app (app_error unauthenticated (some "Sign in to continue.") none)

abbrev pub method_of : WorkloadName → Option String → String
method_of mcp_rs cnf_jkt = "oauth"
method_of api_gw cnf_jkt = if is_set cnf_jkt then "oauth-dpop" else "oauth"

-- The channel and the audience of a workload.
abbrev pub channel_of : WorkloadName → Channel
channel_of mcp_rs = mcp
channel_of api_gw = native

abbrev pub audience_of : Env → WorkloadName → String
audience_of env mcp_rs = env.resource_uri
audience_of env api_gw = env.api_resource

-- The subject, or the refusal, by what the verifier says.
abbrev pub subject_of : WorkloadName → VerifiedToken → Result Subject
subject_of name (VerifiedToken.verified v) = ok (record {
  account_id = v.account_id;
  client_id = v.client_id;
  grant_id = v.grant_id;
  channel = channel_of name;
  auth_method = method_of name v.cnf_jkt;
  expires_in = v.expires_in;
})
subject_of name VerifiedToken.invalid_token = err sign_in_again
subject_of name (VerifiedToken.insufficient_scope _ _ _) = err (throw_code insufficient_scope)

-- `resolveSubject`
unfoldable pub resolve_subject : Env → ℕ → ExchangeRequest → Tables → Result Subject
resolve_subject env now request t = subject_of request.workload.name (
    verify_access_token env now (audience_of env request.workload.name) (some request.subject_token)
      (scope_text request.scope ∷ []) t)

-- What the token says of the subject.
abbrev pub claims_of : String → ℕ → String → ExchangeRequest → Subject → Claims
claims_of issuer now jti request subject =
    let at = now / 1000 in
    record {
      iss = issuer;
      aud = internal_audience;
      sub = subject.account_id;
      iat = at;
      exp = at + min internal_token_ttl_seconds subject.expires_in;
      jti = jti;
      client_id = subject.client_id;
      grant_id = subject.grant_id;
      scope = request.scope;
      channel = subject.channel;
      auth_method = subject.auth_method;
      act_sub = workload_uri request.workload;
      cnf = request.workload.cnf;
    }

abbrev pub signed :
    {T : Type 0}
    → (Claims → T)
    → String
    → ℕ
    → String
    → ExchangeRequest
    → Result Subject
    → Result (ExchangedToken T)
signed sign issuer now jti request (err e) = err e
signed sign issuer now jti request (ok subject) =
    let expires_in = min internal_token_ttl_seconds subject.expires_in in
    if leb expires_in 0
    then err sign_in_again
    else ok (record {
      token = sign (claims_of issuer now jti request subject);
      expires_in = expires_in;
      grant_id = subject.grant_id;
    })

-- `exchangeToken`, where a signing key is configured; the jti is drawn at random.
unfoldable pub exchange_token :
    {T : Type 0}
    → Env
    → (Claims → T)
    → String
    → ℕ
    → String
    → ExchangeRequest
    → Tables
    → Result (ExchangedToken T)
exchange_token env sign issuer now jti request t =
    signed sign issuer now jti request (resolve_subject env now request t)
