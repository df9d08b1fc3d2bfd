-- ===== src/Oauth/Authorize/Tests.antt =====
-- Concrete runs of the authorization endpoint.
use mcp_ui.Common.{◌≡◌, refl, Bool, true, false, none, some, [], ◌∷◌, nat_eq, string_eq, list_eq}
use mcp_ui.Common.Rows.{first, any, every, delete, update}
use mcp_ui.Normalize.{Text}
use mcp_ui.Tokens.{
  TokenKind, mint, well_formed, length, take, drop, starts_with, is_base64url, base62_digit,
  base62_from, checksum, prefix, letters, token_digest, token_digest_candidates,
}
use mcp_ui.Mcp.Policy.{Scope, scope_text}
use mcp_ui.Exec.{ok}
use mcp_ui.Accounts.{AccountRow, get_account, to_account}
use mcp_ui.Oauth.Fixtures.{repeat, env, token_of, web}
use mcp_ui.Oauth.Scope.{split_words, join}
use mcp_ui.Oauth.Types.{
  ClientKind, ClientTrust, NewPendingAuthorization, PendingAuthorization, PendingRow, hash_of,
}
use mcp_ui.Oauth.Codes.{
  read_pending_authorization, pending_of, pending_belongs_to, claim_and_issue_code,
  issue_authorization_code, delete_pending_authorization,
}
use mcp_ui.Oauth.Session.{SessionRow, AsSession, read_as_session}
use mcp_ui.Oauth.Consents.{redirect_host}
use mcp_ui.Oauth.Clients.Urls.{redirect_uri_allowed, allows}
use mcp_ui.Oauth.Clients.Registration.{ClientRow, ApplicationType}
use mcp_ui.Oauth.Clients.Registration as Reg
use mcp_ui.Oauth.Clients.Resolve.{
  ResolvedClient, Directory, ClientTables, resolve_client, resolve_registered_client,
}
use mcp_ui.Oauth.Authorize.Request.{Param, absent, given, Params, sent_back, validate_authorization}
use mcp_ui.Oauth.Authorize.Checked.{Checked}
use mcp_ui.Oauth.Authorize.Redirects.{IsClients, sent_back-IsClients}
use mcp_ui.Oauth.Authorize.Steps.{
  World, State, FlowDraws, Cookies, Form, code_to, writes, recent_enough, csrf_for, load_step,
  current_session, complete,
}
use mcp_ui.Oauth.Authorize.Consent.{get_consent, post_consent}
use mcp_ui.Oauth.Authorize.Issued.{Ready, Agreed}
use mcp_ui.Oauth.Authorize.Issued.Skipped.{get_consent-Ready}
use mcp_ui.Oauth.Authorize.Issued.Given.{post_consent-Ready}
use mcp_ui.Oauth.Authorize.Issued.Granted.{post_consent-code}

abbrev dir : Directory
dir = record {
  web = web;
  known_clients = [];
  first_party_client_id = "iot-switch-ios";
  first_party_redirect_uris = "com.example.iotswitch:/oauth/callback" ∷ [];
  fetcher = λ _. none;
  byte_length = length;
  parse_json = λ _. none;
  sha256_hex = λ _. "";
}

abbrev app_row : ClientRow
app_row = record {
  client_id = "client_1";
  client_name = none;
  redirect_uris = "https://app.example/cb" ∷ [];
  source = Reg.dcr;
  application_type = some ApplicationType.web;
  created_at = 1000;
}

abbrev clients : ClientTables
clients = record { clients = app_row ∷ []; cimd_cache = []; windows = [] }

abbrev params : Param Text → Params
params challenge = record {
  client_id = given "client_1";
  redirect_uri = given "https://app.example/cb";
  response_type = given "code";
  state = given "s";
  code_challenge = challenge;
  code_challenge_method = given "S256";
  resource = absent;
  scope = absent;
  dpop_jkt = absent;
  prompt = absent;
}

abbrev asked : NewPendingAuthorization
asked = record {
  client_id = "client_1";
  client_host = "app.example";
  client_kind = ClientKind.dcr;
  client_trust = ClientTrust.unverified;
  document_digest = none;
  redirect_uri = "https://app.example/cb";
  state = some "s";
  code_challenge = repeat 97;
  resource = "mcp";
  scopes =
      scope_text Scope.devices_read
      ∷ scope_text Scope.devices_control
      ∷ scope_text Scope.devices_create
      ∷ [];
  offline_access = true;
  dpop_jkt = none;
  first_party = false;
}

abbrev app_client : ResolvedClient
app_client = record {
  client_id = "client_1";
  redirect_uris = "https://app.example/cb" ∷ [];
  display_host = none;
  kind = ClientKind.dcr;
  trust = ClientTrust.unverified;
  document_digest = none;
  first_party = false;
}

no_challenge :
    (validate_authorization env dir 2000 (params absent) false clients).0
    ≡ sent_back "https://app.example/cb"
        (some "s")
        "invalid_request"
        "PKCE with the S256 challenge method is required."
unfolding validate_authorization resolve_client resolve_registered_client length starts_with first
    redirect_uri_allowed any allows
no_challenge = refl

sent_back-IsClients_example :
    IsClients env web
      (params absent)
      false
      "https://app.example/cb"
      (resolve_client dir 2000 (some "client_1") clients).0
sent_back-IsClients_example =
    sent_back-IsClients env dir 2000 (params absent) false clients no_challenge

abbrev binding : Text
binding = token_of TokenKind.binding 66

abbrev session_token : Text
session_token = token_of TokenKind.session 67

abbrev cookies : Cookies
cookies = record { binding = some binding; session = some session_token }

abbrev pending_row : Bool → PendingRow
pending_row ours = record {
  id = "pa";
  client_id = "client_1";
  client_host = "app.example";
  client_kind = ClientKind.dcr;
  client_trust = ClientTrust.unverified;
  document_digest = none;
  redirect_uri = "https://app.example/cb";
  state = some "s";
  code_challenge = repeat 97;
  resource = "mcp";
  scope = scope_text Scope.devices_read;
  offline_access = true;
  binding_hash = "B";
  dpop_jkt = none;
  first_party = ours;
  expires_at = 900000;
}

abbrev session_row : SessionRow
session_row = record {
  id_hash = "C";
  account_id = "alice";
  auth_time = 1000;
  acr = "pwd";
  idle_expires_at = 1801000;
  absolute_expires_at = 43201000;
  revoked_at = none;
}

abbrev account_row : AccountRow
account_row = record {
  id = "alice";
  username = 97 ∷ [];
  normalized_username = 97 ∷ [];
  password_hash = "";
  password_pepper_version = 1;
  created_at = 0;
}

abbrev world : World
world = record {
  env = env;
  dir = dir;
  unicode = record { nfkc = λ s. s; to_lower_case = λ s. s };
  passwords = record {
    hmac_base64 = λ _ _. "";
    pepper_key = "";
    pepper_version = 1;
    hash = λ _ s. s;
    verify = λ _ _. some true;
  };
  mac = λ purpose _. purpose;
  after_prefix = λ _ _. none;
  stringify = λ _. [];
  parse = λ _. params absent;
}

abbrev state : Bool → State
state ours = record {
  clients = clients;
  tables = record {
    grants = [];
    access_tokens = [];
    refresh_tokens = [];
    codes = [];
    pending = pending_row ours ∷ [];
  };
  pushed = [];
  sessions = session_row ∷ [];
  consents = [];
  accounts = account_row ∷ [];
}

abbrev flow_draws : FlowDraws
flow_draws = record {
  pending_id = "pa_2";
  pushed_id = "par";
  consent_id = "consent_1";
  account_id = "acc_1";
  salt = [];
  binding = repeat 68;
  session = repeat 68;
  code = repeat 65;
}

abbrev flight : Bool → PendingAuthorization
flight ours = record {
  id = "pa";
  binding_digest = "B";
  request = record {
    client_id = "client_1";
    client_host = "app.example";
    client_kind = ClientKind.dcr;
    client_trust = ClientTrust.unverified;
    document_digest = none;
    redirect_uri = "https://app.example/cb";
    state = some "s";
    code_challenge = repeat 97;
    resource = "mcp";
    scopes = scope_text Scope.devices_read ∷ [];
    offline_access = true;
    dpop_jkt = none;
    first_party = ours;
  };
}

abbrev session : AsSession
session = record { account_id = "alice"; auth_time = 1000; auth_age_seconds = 1; acr = "pwd" }

our_app_code :
    (get_consent world 2000 flow_draws cookies (some "pa") (state true)).0.response
    ≡ code_to "https://app.example/cb" (token_of TokenKind.code 65) (some "s")
unfolding get_consent load_step read_pending_authorization pending_of pending_belongs_to
    current_session read_as_session recent_enough writes complete claim_and_issue_code
    issue_authorization_code delete_pending_authorization get_account to_account split_words join
    scope_text first any every delete update well_formed mint length take drop starts_with
    is_base64url base62_digit base62_from checksum prefix letters token_digest
    token_digest_candidates hash_of
our_app_code = refl

get_consent-Ready_example :
    (pending : PendingAuthorization) × (session : AsSession) × Ready world 2000 flow_draws cookies
      (some "pa")
      (state true)
      pending
      session
    × Agreed world 2000 flow_draws cookies pending session (state true)
    × ("https://app.example/cb" ≡ pending.request.redirect_uri)
get_consent-Ready_example =
    get_consent-Ready world 2000 flow_draws cookies (some "pa") (state true) our_app_code

abbrev form : Form
form = record {
  pending = some "pa";
  csrf = some "authorize-csrf";
  signup = false;
  username = none;
  password = none;
}

ready : Ready world 2000 flow_draws cookies (some "pa") (state false) (flight false) session
unfolding read_pending_authorization pending_of pending_belongs_to read_as_session recent_enough
    writes split_words scope_text first any every well_formed mint length take drop starts_with
    is_base64url base62_digit base62_from checksum prefix letters token_digest
    token_digest_candidates hash_of
ready = record {
  binding = binding;
  cookie = refl;
  in_flight = refl;
  belongs = refl;
  signed_in = refl;
  recent = refl;
}

host_parsed : redirect_host web "https://app.example/cb" ≡ ok "app.example"
unfolding redirect_host
host_parsed = refl

post_consent-code_example :
    (post_consent world 2000 flow_draws cookies form (state false)).0.response
    ≡ code_to "https://app.example/cb" (token_of TokenKind.code 65) (some "s")
post_consent-code_example =
    post_consent-code world 2000 flow_draws cookies form (state false) (flight false) session
      "app.example" ready refl host_parsed

post_consent-Ready_example :
    (pending : PendingAuthorization) × (session : AsSession) × (r : Ready world 2000 flow_draws
      cookies
      (some "pa")
      (state false)
      pending
      session)
    × (form.csrf ≡ some (csrf_for world pending r.binding))
    × ("https://app.example/cb" ≡ pending.request.redirect_uri)
post_consent-Ready_example =
    post_consent-Ready world 2000 flow_draws cookies form (state false) post_consent-code_example
