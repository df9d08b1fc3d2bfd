-- ===== src/Oauth/Authorize/Redirects.antt =====
-- server/src/oauth/authorize.ts: the authorization endpoint is no open redirector.
use mcp_ui.Common.{
  ℕ, ◌≡◌, refl, sym, ap, ◌∙◌, String, Bool, true, inl, inr, Option, none, some, string_eq, arith,
  Bool-cases, subst,
}
use mcp_ui.Normalize.{Text}
use mcp_ui.Oauth.Types.{Env}
use mcp_ui.Oauth.Clients.Urls.{Web, redirect_uri_allowed}
use mcp_ui.Oauth.Clients.Resolve.{ResolvedClient, Directory, ClientTables, resolve_client}
use mcp_ui.Oauth.Authorize.Request.{
  Param, absent, given, other, Params, Validated, accepted, on_page, sent_back, text_of,
  challenge_of, check_target, check_request, check_redirect, check_client, validate_authorization,
}

-- Where an error is sent, or the place given.
abbrev destination : String → Validated → String
destination uri (accepted _ _) = uri
destination uri (on_page _) = uri
destination uri (sent_back to _ _ _) = to

-- The answer goes to the redirect URI, or names no place.
module _ (env : Env) (web : Web) (params : Params) (client : ResolvedClient)
    (redirect_uri : String) where
  target-destination :
      (o : Option Text)
      → destination redirect_uri (check_target env web params client redirect_uri o) ≡ redirect_uri
  target-destination none = refl
  target-destination (some challenge) = ground arith

  request-destination :
      (pushed : Bool)
      → destination redirect_uri (check_request env web params client redirect_uri pushed)
        ≡ redirect_uri
  request-destination pushed =
      ground (
        arith,
        target-destination (challenge_of params.code_challenge_method params.code_challenge),
      )

module _ (env : Env) (web : Web) (params : Params) (pushed : Bool) where
  -- The redirect URI is one that the client may be sent to.
  abbrev pub IsClients : String → Option ResolvedClient → Type 0
  IsClients uri o =
      (client : ResolvedClient) × (o ≡ some client)
      × (params.redirect_uri ≡ given uri)
      × (redirect_uri_allowed web uri client.redirect_uris ≡ true)

  redirect-IsClients :
      (client : ResolvedClient) (asked : Param String) {uri error description : String}
      {state : Option String}
      → params.redirect_uri ≡ asked
      → check_redirect env web params pushed client asked ≡ sent_back uri state error description
      → IsClients uri (some client)
  redirect-IsClients client absent a e = absurd cc
  redirect-IsClients client other a e = absurd cc
  redirect-IsClients client (given asked) {uri} a e =
      elim (Bool-cases (redirect_uri_allowed web asked client.redirect_uris)) [
        | inr bad ↦ absurd (ground arith)
        | inl fine ↦
            let there : asked ≡ uri =
              sym (request-destination env web params client asked pushed)
              ∙ ap (destination asked) (rw fine at e) in
            (
              client,
              refl,
              subst (λ u. params.redirect_uri ≡ given u) there a,
              subst (λ u. redirect_uri_allowed web u client.redirect_uris ≡ true) there fine,
            )
      ]

  client-IsClients :
      (o : Option ResolvedClient) {uri error description : String} {state : Option String}
      → check_client env web params pushed o ≡ sent_back uri state error description
      → IsClients uri o
  client-IsClients none e = absurd cc
  client-IsClients (some client) e = redirect-IsClients client params.redirect_uri refl e

-- An error is sent back only where the client was resolved and the redirect URI is one that this
-- client may be sent to; every other error stays on our own page.
pub sent_back-IsClients :
    (env : Env) (dir : Directory) (now : ℕ) (params : Params) (pushed : Bool) (t : ClientTables)
    {uri error description : String} {state : Option String}
    → (validate_authorization env dir now params pushed t).0 ≡ sent_back uri state error description
    → IsClients env dir.web params pushed uri
        (resolve_client dir now (text_of params.client_id) t).0
unfolding validate_authorization
sent_back-IsClients env dir now params pushed t e =
    client-IsClients env dir.web params pushed
      (resolve_client dir now (text_of params.client_id) t).0 e
