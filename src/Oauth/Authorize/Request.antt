-- ===== src/Oauth/Authorize/Request.antt =====
-- server/src/oauth/authorize.ts: the checks of an authorization request, whether it came by the
-- browser or was pushed. Of the values that are compared with a text, or stored as one, a parameter
-- is absent, a text, or of another type.
use mcp_ui.Common.{
  ℕ, String, Bool, true, false, ◌&&◌, ◌||◌, not, Option, none, some, List, [], ◌∷◌, map, leb, ltb,
  ◌==◌, nat_eq, string_eq, list_eq, if◌then◌else◌,
}
use mcp_ui.Common.Rows.{every}
use mcp_ui.Normalize.{Text}
use mcp_ui.Tokens.{length, is_base64url}
use mcp_ui.Mcp.Policy.{Scope, scope_text}
use mcp_ui.Oauth.Types.{Env, NewPendingAuthorization}
use mcp_ui.Oauth.Params.{scopes, parse_scopes, requests_offline_access}
use mcp_ui.Oauth.Clients.Urls.{Url, Web, redirect_uri_allowed, host_or_protocol}
use mcp_ui.Oauth.Clients.Resolve.{ResolvedClient, Directory, ClientTables, resolve_client}
use Prim.Native.String.{◌++◌ as ◌then_text◌}

pub data Param {ℓ} (A : Type ℓ) : Type ℓ where
  absent : Param A
  given : A → Param A
  other : Param A

pub record Params : Type 0 where
  pub client_id : Param String
  pub redirect_uri : Param String
  pub response_type : Param String
  pub state : Param String
  pub code_challenge : Param Text
  pub code_challenge_method : Param String
  pub resource : Param String
  pub scope : Param Text
  pub dpop_jkt : Param String
  pub prompt : Param String

pub data PageError : Type 0 where
  unrecognised_application unrecognised_redirect : PageError

-- Where an error goes: to our own page, or back to the client.
pub data Validated : Type 0 where
  accepted : NewPendingAuthorization → Bool → Validated
  on_page : PageError → Validated
  sent_back : String → Option String → String → String → Validated

-- The text of a parameter that is one.
abbrev pub text_of {ℓ} : {A : Type ℓ} → Param A → Option A
text_of absent = none
text_of (given a) = some a
text_of other = none

abbrev pub is_absent {ℓ} : {A : Type ℓ} → Param A → Bool
is_absent absent = true
is_absent (given _) = false
is_absent other = false

-- `value === text`
abbrev pub is_text : String → Param String → Bool
is_text text absent = false
is_text text (given value) = value == text
is_text text other = false

abbrev bounded_state : Web → Option String → Option String
bounded_state web none = none
bounded_state web (some state) = if leb (length (web.units state)) 2048 then some state else none

-- `stateValue`
abbrev pub state_value : Web → Params → Option String
state_value web params = bounded_state web (text_of params.state)

-- The challenge, where method and length are those of S256.
abbrev pub challenge_of : Param String → Param Text → Option Text
challenge_of method absent = none
challenge_of method (given challenge) =
    if not (is_text "S256" method) || (ltb (length challenge) 43 || ltb 128 (length challenge))
    then none
    else some challenge
challenge_of method other = none

abbrev pub expected_resource : Env → ResolvedClient → String
expected_resource env client = if client.first_party then env.api_resource else env.resource_uri

abbrev pub requested_scopes : Param Text → List Scope
requested_scopes absent = scopes
requested_scopes (given raw) = parse_scopes (some raw)
requested_scopes other = []

abbrev pub no_scope : List Scope → Bool
no_scope [] = true
no_scope (s ∷ ss) = false

-- `scope === undefined || requestsOfflineAccess(scope)`
abbrev pub offline_of : Param Text → Bool
offline_of absent = true
offline_of (given raw) = requests_offline_access (some raw)
offline_of other = false

-- `/^[A-Za-z0-9_-]{43}$/`
abbrev pub is_thumbprint : Web → String → Bool
is_thumbprint web jkt = length (web.units jkt) == 43 && every is_base64url (web.units jkt)

abbrev pub jkt_malformed : Web → Param String → Bool
jkt_malformed web absent = false
jkt_malformed web (given jkt) = not (is_thumbprint web jkt)
jkt_malformed web other = true

-- `client.displayHost ?? (new URL(redirect_uri).host || new URL(redirect_uri).protocol)`; the URI has
-- been parsed before.
abbrev host_shown : Option String → Option Url → String
host_shown (some host) url = host
host_shown none none = ""
host_shown none (some url) = host_or_protocol url

module _ (env : Env) (web : Web) (params : Params) (client : ResolvedClient)
    (redirect_uri : String) where
  -- `refuse`
  abbrev pub refuse : String → String → Validated
  refuse error description = sent_back redirect_uri (state_value web params) error description

  abbrev pub pending_for : Text → NewPendingAuthorization
  pending_for challenge = record {
    client_id = client.client_id;
    client_host = host_shown client.display_host (web.parse_url redirect_uri);
    client_kind = client.kind;
    client_trust = client.trust;
    document_digest = client.document_digest;
    redirect_uri = redirect_uri;
    state = state_value web params;
    code_challenge = challenge;
    resource = expected_resource env client;
    scopes = map scope_text (requested_scopes params.scope);
    offline_access = offline_of params.scope;
    dpop_jkt = text_of params.dpop_jkt;
    first_party = client.first_party;
  }

  -- The checks after the challenge's.
  abbrev pub check_target : Option Text → Validated
  check_target none = refuse "invalid_request" "PKCE with the S256 challenge method is required."
  check_target (some challenge) =
      let expected = expected_resource env client in
      if not (is_absent params.resource) && not (is_text expected params.resource)
      then refuse "invalid_target"
          ("This client may only request tokens for " then_text (expected then_text "."))
      else (if no_scope (requested_scopes params.scope)
          then refuse "invalid_scope"
              "Supported scopes are: devices:read devices:control devices:create"
          else (if jkt_malformed web params.dpop_jkt
              then refuse "invalid_request" "dpop_jkt must be a base64url SHA-256 JWK thumbprint."
              else (if client.first_party && is_absent params.dpop_jkt
                  then refuse "invalid_request"
                      "This client must bind its authorization to a DPoP key."
                  else accepted (pending_for challenge) (is_text "create" params.prompt))))

  -- The checks once the redirect URI is known to be the client's.
  abbrev pub check_request : Bool → Validated
  check_request pushed =
      if client.first_party && not pushed
      then refuse "invalid_request" "This application must use pushed authorization requests."
      else (if not (is_text "code" params.response_type)
          then refuse "unsupported_response_type" "Only the authorization code flow is supported."
          else check_target (challenge_of params.code_challenge_method params.code_challenge))

module _ (env : Env) (web : Web) (params : Params) (pushed : Bool) where
  abbrev pub check_redirect : ResolvedClient → Param String → Validated
  check_redirect client absent = on_page unrecognised_redirect
  check_redirect client other = on_page unrecognised_redirect
  check_redirect client (given redirect_uri) =
      if redirect_uri_allowed web redirect_uri client.redirect_uris
      then check_request env web params client redirect_uri pushed
      else on_page unrecognised_redirect

  abbrev pub check_client : Option ResolvedClient → Validated
  check_client none = on_page unrecognised_application
  check_client (some client) = check_redirect client params.redirect_uri

-- `validateAuthorization`
unfoldable pub validate_authorization :
    Env → Directory → ℕ → Params → Bool → ClientTables → Validated × ClientTables
validate_authorization env dir now params pushed t =
    let (client, t') = resolve_client dir now (text_of params.client_id) t in
    (check_client env dir.web params pushed client, t')
