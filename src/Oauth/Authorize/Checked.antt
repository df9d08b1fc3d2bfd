-- ===== src/Oauth/Authorize/Checked.antt =====
-- server/src/oauth/authorize.ts: what an authorization request that was accepted has shown, and
-- where one that was refused is answered.
use mcp_ui.Common.{
  ◌≤◌, ◌≡◌, ◌≢◌, String, Bool, true, false, ◌&&◌, not, [], string_eq, if◌then◌else◌,
}
use mcp_ui.Normalize.{Text}
use mcp_ui.Tokens.{length}
use mcp_ui.Oauth.Types.{Env, NewPendingAuthorization, is_set}
use mcp_ui.Oauth.Clients.Urls.{Web, redirect_uri_allowed}
use mcp_ui.Oauth.Clients.Resolve.{ResolvedClient}
use mcp_ui.Oauth.Authorize.Request.{
  given, Params, is_absent, is_text, requested_scopes, no_scope, jkt_malformed,
}

-- What holds of a request that becomes a pending authorization.
pub record Checked (env : Env) (web : Web) (params : Params) (pushed : Bool)
    (client : ResolvedClient) (p : NewPendingAuthorization) : Type 0 where
  pub asked : params.redirect_uri ≡ given p.redirect_uri
  pub allowed : redirect_uri_allowed web p.redirect_uri client.redirect_uris ≡ true
  pub code_flow : is_text "code" params.response_type ≡ true
  pub same_client : p.client_id ≡ client.client_id
  pub same_kind : p.client_kind ≡ client.kind
  pub same_party : p.first_party ≡ client.first_party
  pub challenge_long : 43 ≤ length p.code_challenge
  pub challenge_short : length p.code_challenge ≤ 128
  pub own_resource :
      p.resource ≡ (if client.first_party then env.api_resource else env.resource_uri)
  pub some_scope : p.scopes ≢ []
  pub pushed_if_ours : (client.first_party && not pushed) ≡ false
  pub bound_if_ours : (client.first_party && not (is_set p.dpop_jkt)) ≡ false

module _ (env : Env) (web : Web) (params : Params) (client : ResolvedClient)
    (redirect_uri : String) where
  -- The facts that the checks of the target leave.
  abbrev TargetChecked : Text → Type 0
  TargetChecked challenge =
      (no_scope (requested_scopes params.scope) ≡ false)
      × (jkt_malformed web params.dpop_jkt ≡ false)
      × ((client.first_party && is_absent params.dpop_jkt) ≡ false)
