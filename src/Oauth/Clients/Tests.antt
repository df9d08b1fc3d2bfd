-- ===== src/Oauth/Clients/Tests.antt =====
-- Concrete runs of the clients of the authorization server.
use mcp_ui.Common.{
  ◌≡◌, refl, String, true, false, Option, none, some, List, [], ◌∷◌, arith, ◌==◌, nat_eq, string_eq,
  if◌then◌else◌,
}
use mcp_ui.Common.Rows.{first, any, delete}
use mcp_ui.Normalize.{Text}
use mcp_ui.Tokens.{length, starts_with}
use mcp_ui.RateLimit.{hit, open_window, take as take_budget}
use mcp_ui.Common.Dict.{get}
use mcp_ui.Oauth.Fixtures.{web, document_url}
use mcp_ui.Oauth.Types.{ClientKind, ClientTrust, verified}
use mcp_ui.Oauth.Clients.Urls.{
  Url, is_loopback, is_registerable_redirect_uri, scheme_allowed, redirect_uri_allowed, allows,
  same_but_port,
}
use mcp_ui.Oauth.Clients.Redirects.{IsSafe}
use mcp_ui.Oauth.Clients.CacheControl.{
  cimd_cache_seconds, says_no, find_max_age, after_pattern, digits_from,
}
use mcp_ui.Oauth.Clients.Registration.{
  ClientRow, ClientRegistration, RegistrationError, RegistrationOutcome, registered, refused,
  native, ApplicationType, register_client,
}
use mcp_ui.Oauth.Clients.Registration as Reg
use mcp_ui.Oauth.Clients.Registration.Valid.{IsValid, register_client-IsValid}
use mcp_ui.Oauth.Clients.Pinned.{
  Ipaddr, Network, FetchedDocument, is_forbidden_address, resolve_pinned_address, pinned_fetcher,
  fetch_pinned, collect,
}
use mcp_ui.Oauth.Clients.Pinned.Public.{Fetched, pinned_fetcher-Fetched}
use mcp_ui.Oauth.Clients.Resolve.{
  ResolvedClient, Directory, ClientTables, resolve_client, resolve_metadata_document,
  resolve_registered_client, cimd_fetch_allowed, texts, keep_document, cached_document,
  document_client,
}
use mcp_ui.Oauth.Clients.Resolve.Trust.{Vouched, resolve_client-Vouched, registered_redirect-IsSafe}

-- 'max-age=5'
abbrev header : Text
header = 109 ∷ 97 ∷ 120 ∷ 45 ∷ 97 ∷ 103 ∷ 101 ∷ 61 ∷ 53 ∷ []

cached_a_minute : cimd_cache_seconds (some header) ≡ 60
unfolding cimd_cache_seconds says_no find_max_age after_pattern digits_from
cached_a_minute = refl

-- 'No-Store'
not_cached : cimd_cache_seconds (some (78 ∷ 111 ∷ 45 ∷ 83 ∷ 116 ∷ 111 ∷ 114 ∷ 101 ∷ [])) ≡ 0
unfolding cimd_cache_seconds says_no find_max_age after_pattern digits_from
not_cached = refl

abbrev registration : List (Option String) → ClientRegistration
registration uris = record {
  redirect_uris = some uris;
  client_name = none;
  application_type = some "native";
}

abbrev app_row : ClientRow
app_row = record {
  client_id = "client_1";
  client_name = none;
  redirect_uris = "http://127.0.0.1:4000/cb" ∷ [];
  source = Reg.dcr;
  application_type = some native;
  created_at = 1000;
}

app_registers :
    register_client web 1000 "1" [] (registration (some "http://127.0.0.1:4000/cb" ∷ [])) []
    ≡ (registered "client_1" ("http://127.0.0.1:4000/cb" ∷ []) none native, app_row ∷ [])
unfolding register_client Reg.accepted_uris is_registerable_redirect_uri is_loopback
    Reg.suits_application_type Reg.clean_name Reg.insert_client Reg.evict_unused_clients delete
    length any scheme_allowed
app_registers = refl

empty-IsValid : IsValid web []
unfolding length
empty-IsValid = record { each = tt; capped = ground arith }

register_client-IsValid_example :
    IsValid web
      (register_client web 1000 "1" [] (registration (some "http://127.0.0.1:4000/cb" ∷ [])) []).1
register_client-IsValid_example =
    register_client-IsValid web 1000 "1" [] (registration (some "http://127.0.0.1:4000/cb" ∷ [])) []
      empty-IsValid

script_barred : is_registerable_redirect_uri web "javascript:alert(1)" ≡ false
unfolding is_registerable_redirect_uri length any
script_barred = refl

abbrev dir : Directory
dir = record {
  web = web;
  known_clients = "https://docs.example/client.json" ∷ [];
  first_party_client_id = "iot-switch-ios";
  first_party_redirect_uris = "com.example.iotswitch:/oauth/callback" ∷ [];
  fetcher = λ _. some (record { status = 200; cache_control = some header; body = 120 ∷ [] });
  byte_length = length;
  parse_json = λ _. some (record {
    client_id = some "https://docs.example/client.json";
    redirect_uris = some (some "javascript:alert(1)" ∷ none ∷ []);
  });
  sha256_hex = λ _. "digest";
}

abbrev tables : ClientTables
tables = record { clients = app_row ∷ []; cimd_cache = []; windows = [] }

abbrev app_client : ResolvedClient
app_client = record {
  client_id = "client_1";
  redirect_uris = "http://127.0.0.1:4000/cb" ∷ [];
  display_host = none;
  kind = ClientKind.dcr;
  trust = ClientTrust.unverified;
  document_digest = none;
  first_party = false;
}

app_resolved : (resolve_client dir 2000 (some "client_1") tables).0 ≡ some app_client
unfolding resolve_client resolve_registered_client length starts_with first
app_resolved = refl

tables-IsValid : IsValid web (app_row ∷ [])
unfolding length is_registerable_redirect_uri is_loopback Reg.suits_application_type any
    scheme_allowed
tables-IsValid = record { each = (λ _. (native, refl, (refl, tt)), tt); capped = ground arith }

other_port_allowed :
    redirect_uri_allowed web "http://127.0.0.1:5000/cb" app_client.redirect_uris ≡ true
unfolding redirect_uri_allowed any allows same_but_port is_loopback
other_port_allowed = refl

registered_redirect-IsSafe_example :
    (url : Url) × (web.parse_url "http://127.0.0.1:5000/cb" ≡ some url)
    × (url.hash ≡ "")
    × IsSafe web url
registered_redirect-IsSafe_example =
    registered_redirect-IsSafe dir 2000 "client_1" tables "http://127.0.0.1:5000/cb" tables-IsValid
      app_resolved refl other_port_allowed

abbrev document_id : String
document_id = "https://docs.example/client.json"

-- A metadata document may list what no registration may.
script_listed :
    (resolve_client dir 2000 (some document_id) tables).0
    ≡ some (document_client dir document_id ("javascript:alert(1)" ∷ []) "docs.example" "digest")
unfolding resolve_client resolve_metadata_document cached_document first length starts_with
    cimd_fetch_allowed hit open_window texts keep_document cimd_cache_seconds says_no find_max_age
    after_pattern digits_from any take_budget get
script_listed = refl

script_allowed : redirect_uri_allowed web "javascript:alert(1)" ("javascript:alert(1)" ∷ []) ≡ true
unfolding redirect_uri_allowed any allows
script_allowed = refl

document_vouched :
    (document_client dir document_id ("javascript:alert(1)" ∷ []) "docs.example" "digest").trust
    ≡ verified
unfolding any
document_vouched = refl

resolve_client-Vouched_example : Vouched dir document_id tables
resolve_client-Vouched_example =
    resolve_client-Vouched dir 2000 document_id tables script_listed document_vouched

abbrev ipaddr : Ipaddr String
ipaddr = record {
  is_valid = λ _. true;
  parse = λ s. s;
  kind = λ _. "ipv4";
  is_ipv4_mapped = λ _. false;
  to_ipv4 = λ s. s;
  range = λ s. if s == "10.0.0.1" then "private" else "unicast";
}

abbrev net : Network
net = record {
  is_ip = λ _. 0;
  lookup = λ _. some (record { address = "203.0.114.7"; family = 4 } ∷ []);
  request = λ _ _.
      some (record { status = 200; cache_control = none; chunks = (123 ∷ []) ∷ (125 ∷ []) ∷ [] });
  decode = λ bytes. bytes;
}

abbrev fetched : FetchedDocument
fetched = record { status = 200; cache_control = none; body = 123 ∷ 125 ∷ [] }

document_fetched : pinned_fetcher ipaddr net document_url ≡ some fetched
unfolding pinned_fetcher fetch_pinned resolve_pinned_address is_forbidden_address collect any length
document_fetched = refl

pinned_fetcher-Fetched_example : Fetched ipaddr net document_url fetched
pinned_fetcher-Fetched_example = pinned_fetcher-Fetched ipaddr net document_url document_fetched
