-- ===== src/Oauth/Clients/Resolve.antt =====
-- server/src/oauth/clients.ts: from a client_id to the client. A client's metadata document comes
-- from the cache, or from the fetcher within the budget of its host.
pub mod Sound
pub mod Trust
use mcp_ui.Common.{
  ℕ, ◌+◌, String, Bool, true, false, ◌&&◌, ◌||◌, not, Option, none, some, List, [], ◌∷◌, leb, ltb,
  ◌==◌, nat_eq, string_eq, option_eq, list_eq, if◌then◌else◌,
}
use mcp_ui.Common.Rows.{any, first, delete}
use mcp_ui.Common.Dict.{Dict}
use mcp_ui.Normalize.{Text}
use mcp_ui.Tokens.{length, starts_with}
use mcp_ui.RateLimit.{Window, BucketResult, allowed, refused, take}
use mcp_ui.Oauth.Types.{
  ClientKind, cimd, dcr, preregistered, ClientTrust, verified, unverified, seconds,
}
use mcp_ui.Oauth.Clients.Urls.{Url, Web}
use mcp_ui.Oauth.Clients.CacheControl.{cimd_cache_seconds}
use mcp_ui.Oauth.Clients.Registration.{ClientRow, ClientSource}
use mcp_ui.Oauth.Clients.Pinned.{FetchedDocument, cimd_max_bytes}
use Prim.Native.String.{◌++◌ as ◌then_text◌}

pub record ResolvedClient : Type 0 where
  pub client_id : String
  pub redirect_uris : List String
  pub display_host : Option String
  pub kind : ClientKind
  pub trust : ClientTrust
  pub document_digest : Option String
  pub first_party : Bool

-- A row of the cache; the times are those of its last upsert.
pub record CimdRow : Type 0 where
  pub client_id : String
  pub redirect_uris : List String
  pub display_host : String
  pub digest : String
  pub fetched_at : ℕ
  pub expires_at : ℕ

-- What `JSON.parse` gives of a document: texts and lists, none for a value of another type.
pub record Document : Type 0 where
  pub client_id : Option String
  pub redirect_uris : Option (List (Option String))

pub record Directory : Type 0 where
  pub web : Web
  -- `knownClients()`, `FIRST_PARTY_CLIENT_ID` and `firstPartyRedirectUris()`
  pub known_clients : List String
  pub first_party_client_id : String
  pub first_party_redirect_uris : List String
  pub fetcher : Url → Option FetchedDocument
  pub byte_length : Text → ℕ
  -- none where it throws, or gives a null, of which the next line throws
  pub parse_json : Text → Option Document
  pub sha256_hex : Text → String

pub record ClientTables : Type 0 where
  pub clients : List ClientRow
  pub cimd_cache : List CimdRow
  pub windows : Dict Window

abbrev pub trust_of : Directory → String → ClientTrust
trust_of dir client_id =
    if any (λ known. known == client_id) dir.known_clients then verified else unverified

abbrev pub document_client : Directory → String → List String → String → String → ResolvedClient
document_client dir client_id uris host digest = record {
  client_id = client_id;
  redirect_uris = uris;
  display_host = some host;
  kind = cimd;
  trust = trust_of dir client_id;
  document_digest = some digest;
  first_party = false;
}

abbrev pub cached_client : Directory → String → Option CimdRow → Option ResolvedClient
cached_client dir client_id none = none
cached_client dir client_id (some row) =
    some (document_client dir client_id row.redirect_uris row.display_host row.digest)

-- `cachedDocument`
unfoldable pub cached_document : Directory → ℕ → String → List CimdRow → Option ResolvedClient
cached_document dir now client_id rows =
    cached_client dir client_id (first (λ r. r.client_id == client_id && ltb now r.expires_at) rows)

abbrev pub cimd_fetches_per_host_per_minute : ℕ
cimd_fetches_per_host_per_minute = 20

abbrev is_ok : BucketResult → Bool
is_ok allowed = true
is_ok (refused _) = false

-- `cimdFetchAllowed`, at one moment.
unfoldable pub cimd_fetch_allowed : Web → ℕ → String → Dict Window → Bool × Dict Window
cimd_fetch_allowed web now host windows =
    let (result, rest) =
      take cimd_fetches_per_host_per_minute 60000 ("cimd-host:" then_text web.to_lower_case host)
        now now windows in
    (is_ok result, rest)

abbrev keep_text : Option String → List String → List String
keep_text none rest = rest
keep_text (some s) rest = s ∷ rest

-- `filter((entry) => typeof entry === 'string')`
unfoldable pub texts : List (Option String) → List String
texts [] = []
texts (entry ∷ entries) = keep_text entry (texts entries)

abbrev pub uris_of : Option (List (Option String)) → List String
uris_of none = []
uris_of (some entries) = texts entries

-- INSERT … ON CONFLICT (client_id) DO UPDATE.
unfoldable pub store_document : CimdRow → List CimdRow → List CimdRow
store_document row rows = row ∷ delete (λ r. r.client_id == row.client_id) rows

unfoldable pub keep_document :
    ℕ → String → List String → String → String → ℕ → List CimdRow → List CimdRow
keep_document now client_id uris host digest ttl rows =
    if ltb 0 ttl
    then store_document
        (record {
          client_id = client_id;
          redirect_uris = uris;
          display_host = host;
          digest = digest;
          fetched_at = now;
          expires_at = now + seconds ttl;
        })
        rows
    else rows

-- The document as it was read: it must name its own address and some redirect URI.
abbrev pub read_document :
    Directory
    → ℕ
    → String
    → Url
    → FetchedDocument
    → Option Document
    → ClientTables
    → Option ResolvedClient × ClientTables
read_document dir now client_id url response none t = (none, t)
read_document dir now client_id url response (some document) t =
    let uris = uris_of document.redirect_uris in
    if not (document.client_id == some client_id) || uris == []
    then (none, t)
    else (let digest = dir.sha256_hex response.body in
        let ttl = cimd_cache_seconds response.cache_control in
        (
          some (document_client dir client_id uris url.host digest),
          record t {
            cimd_cache = keep_document now client_id uris url.host digest ttl t.cimd_cache;
          },
        ))

abbrev pub read_response :
    Directory
    → ℕ
    → String
    → Url
    → Option FetchedDocument
    → ClientTables
    → Option ResolvedClient × ClientTables
read_response dir now client_id url none t = (none, t)
read_response dir now client_id url (some response) t =
    if ltb response.status 200 || leb 300 response.status
    then (none, t)
    else (if ltb cimd_max_bytes (dir.byte_length response.body)
        then (none, t)
        else read_document dir now client_id url response (dir.parse_json response.body) t)

abbrev pub fetch_document :
    Directory
    → ℕ
    → String
    → Url
    → Bool × Dict Window
    → ClientTables
    → Option ResolvedClient × ClientTables
fetch_document dir now client_id url (within, windows) t =
    let t' = record t { windows = windows } in
    if within then read_response dir now client_id url (dir.fetcher url) t' else (none, t')

abbrev pub cached_or_fetched :
    Directory
    → ℕ
    → String
    → Url
    → Option ResolvedClient
    → ClientTables
    → Option ResolvedClient × ClientTables
cached_or_fetched dir now client_id url (some client) t = (some client, t)
cached_or_fetched dir now client_id url none t =
    fetch_document dir now client_id url (cimd_fetch_allowed dir.web now url.host t.windows) t

abbrev pub resolve_at :
    Directory → ℕ → String → Option Url → ClientTables → Option ResolvedClient × ClientTables
resolve_at dir now client_id none t = (none, t)
resolve_at dir now client_id (some url) t =
    if not (url.protocol == "https:") || not (url.hash == "")
    then (none, t)
    else cached_or_fetched dir now client_id url (cached_document dir now client_id t.cimd_cache) t

-- `resolveMetadataDocument`
unfoldable pub resolve_metadata_document :
    Directory → ℕ → String → ClientTables → Option ResolvedClient × ClientTables
resolve_metadata_document dir now client_id t =
    resolve_at dir now client_id (dir.web.parse_url client_id) t

abbrev pub kind_of : ClientSource → ClientKind
kind_of ClientSource.preregistered = preregistered
kind_of ClientSource.dcr = dcr

abbrev pub trust_of_source : ClientSource → ClientTrust
trust_of_source ClientSource.preregistered = verified
trust_of_source ClientSource.dcr = unverified

abbrev pub registered_client : String → Option ClientRow → Option ResolvedClient
registered_client client_id none = none
registered_client client_id (some row) = some (record {
  client_id = client_id;
  redirect_uris = row.redirect_uris;
  display_host = none;
  kind = kind_of row.source;
  trust = trust_of_source row.source;
  document_digest = none;
  first_party = false;
})

-- `resolveRegisteredClient`
unfoldable pub resolve_registered_client : String → List ClientRow → Option ResolvedClient
resolve_registered_client client_id rows =
    registered_client client_id (first (λ r. r.client_id == client_id) rows)

abbrev pub first_party_client : Directory → ResolvedClient
first_party_client dir = record {
  client_id = dir.first_party_client_id;
  redirect_uris = dir.first_party_redirect_uris;
  display_host = some "the IoT Switch app";
  kind = preregistered;
  trust = verified;
  document_digest = none;
  first_party = true;
}

-- 'https://'
abbrev pub https_prefix : Text
https_prefix = 104 ∷ 116 ∷ 116 ∷ 112 ∷ 115 ∷ 58 ∷ 47 ∷ 47 ∷ []

-- `resolveClient`; a client_id of another type is none.
unfoldable pub resolve_client :
    Directory → ℕ → Option String → ClientTables → Option ResolvedClient × ClientTables
resolve_client dir now none t = (none, t)
resolve_client dir now (some client_id) t =
    let units = dir.web.units client_id in
    if length units == 0 || ltb 2048 (length units)
    then (none, t)
    else (if client_id == dir.first_party_client_id
        then (some (first_party_client dir), t)
        else (if starts_with https_prefix units
            then resolve_metadata_document dir now client_id t
            else (resolve_registered_client client_id t.clients, t)))
