-- ===== src/Oauth/Clients/Registration.antt =====
-- server/src/oauth/clients.ts: Dynamic Client Registration and the eviction of unused clients.
-- A value of unknown type is none where it has not the type that the code asks for.
pub mod Valid
use mcp_ui.Common.{
  ℕ, ◌+◌, String, Bool, true, false, ◌&&◌, ◌||◌, not, Option, none, some, List, [], ◌∷◌, leb, ltb,
  ◌==◌, nat_eq, string_eq, if◌then◌else◌,
}
use mcp_ui.Common.Rows.{any, delete, select}
use mcp_ui.Normalize.{Text, trim}
use mcp_ui.Tokens.{length, take}
use mcp_ui.Oauth.Types.{GrantRow, seconds}
use mcp_ui.Oauth.Clients.Urls.{Url, Web, is_loopback, is_registerable_redirect_uri}
use Prim.Native.String.{◌++◌ as ◌then_text◌}

pub data ClientSource : Type 0 where
  dcr preregistered : ClientSource

pub data ApplicationType : Type 0 where
  web native : ApplicationType

pub record ClientRow : Type 0 where
  pub client_id : String
  pub client_name : Option Text
  pub redirect_uris : List String
  pub source : ClientSource
  pub application_type : Option ApplicationType
  pub created_at : ℕ

pub record ClientRegistration : Type 0 where
  pub redirect_uris : Option (List (Option String))
  pub client_name : Option Text
  pub application_type : Option String

pub data RegistrationError : Type 0 where
  invalid_redirect_uri invalid_client_metadata registration_closed : RegistrationError

pub data RegistrationOutcome : Type 0 where
  registered : String → List String → Option Text → ApplicationType → RegistrationOutcome
  refused : RegistrationError → RegistrationOutcome

abbrev pub max_registered_clients : ℕ
max_registered_clients = 500

abbrev pub unused_client_ttl_seconds : ℕ
unused_client_ttl_seconds = 86400

-- The two types that a client may name.
abbrev pub application_type_of : Option String → Option ApplicationType
application_type_of none = none
application_type_of (some name) =
    if name == "web" then some web else (if name == "native" then some native else none)

abbrev suits_parsed : Web → ApplicationType → Option Url → Bool
suits_parsed w web none = false
suits_parsed w web (some url) = url.protocol == "https:" && not (is_loopback w url)
suits_parsed w native _ = true

-- `suitsApplicationType`, of a text that has been parsed before.
unfoldable pub suits_application_type : Web → String → ApplicationType → Bool
suits_application_type w uri kind = suits_parsed w kind (w.parse_url uri)

abbrev pub uri_accepted : Web → ApplicationType → String → Bool
uri_accepted w kind uri = is_registerable_redirect_uri w uri && suits_application_type w uri kind

abbrev pub with_uri : String → Option (List String) → Option (List String)
with_uri uri none = none
with_uri uri (some uris) = some (uri ∷ uris)

-- The loop over the redirect URIs; one that is not acceptable ends it.
unfoldable pub accepted_uris : Web → ApplicationType → List (Option String) → Option (List String)
accepted_uris w kind [] = some []
accepted_uris w kind (none ∷ entries) = none
accepted_uris w kind (some uri ∷ entries) =
    let rest = accepted_uris w kind entries in
    if uri_accepted w kind uri then with_uri uri rest else none

-- `/[\u0000-\u001f\u007f]/`
abbrev is_control : ℕ → Bool
is_control c = leb c 31 || c == 127

abbrev non_empty : Text → Option Text
non_empty [] = none
non_empty (c ∷ s) = some (c ∷ s)

-- The name without control characters and of 100 units at most.
unfoldable pub clean_name : Option Text → Option Text
clean_name none = none
clean_name (some raw) = non_empty (take 100 (trim (select (λ c. not (is_control c)) raw)))

abbrev is_dcr : ClientSource → Bool
is_dcr dcr = true
is_dcr preregistered = false

-- The WHERE of the DELETE.
abbrev pub evictable : ℕ → List GrantRow → ClientRow → Bool
evictable now grants row =
    is_dcr row.source
    && (ltb (row.created_at + seconds unused_client_ttl_seconds) now
        && not (any (λ (g : GrantRow). g.client_id == row.client_id) grants))

-- `evictUnusedClients`
unfoldable pub evict_unused_clients : ℕ → List GrantRow → List ClientRow → List ClientRow
evict_unused_clients now grants rows = delete (evictable now grants) rows

-- The cap and the INSERT; the id is drawn at random.
unfoldable pub insert_client :
    ℕ
    → String
    → Option Text
    → ApplicationType
    → List String
    → List ClientRow
    → RegistrationOutcome × List ClientRow
insert_client now random name kind uris rows =
    if leb max_registered_clients (length rows)
    then (refused registration_closed, rows)
    else (let id = "client_" then_text random in
        let row : ClientRow = record {
          client_id = id;
          client_name = name;
          redirect_uris = uris;
          source = dcr;
          application_type = some kind;
          created_at = now;
        } in
        (registered id uris name kind, row ∷ rows))

abbrev pub register_accepted :
    ℕ
    → String
    → List GrantRow
    → Option Text
    → ApplicationType
    → Option (List String)
    → List ClientRow
    → RegistrationOutcome × List ClientRow
register_accepted now random grants name kind none rows = (refused invalid_redirect_uri, rows)
register_accepted now random grants name kind (some uris) rows =
    insert_client now random name kind uris (evict_unused_clients now grants rows)

abbrev pub entries_of : Option (List (Option String)) → List (Option String)
entries_of none = []
entries_of (some entries) = entries

abbrev pub register_as :
    Web
    → ℕ
    → String
    → List GrantRow
    → ClientRegistration
    → Option ApplicationType
    → List ClientRow
    → RegistrationOutcome × List ClientRow
register_as w now random grants given none rows = (refused invalid_client_metadata, rows)
register_as w now random grants given (some kind) rows =
    let entries = entries_of given.redirect_uris in
    if length entries == 0 || ltb 10 (length entries)
    then (refused invalid_redirect_uri, rows)
    else register_accepted now random grants (clean_name given.client_name) kind
        (accepted_uris w kind entries) rows

-- `registerClient`
unfoldable pub register_client :
    Web
    → ℕ
    → String
    → List GrantRow
    → ClientRegistration
    → List ClientRow
    → RegistrationOutcome × List ClientRow
register_client w now random grants given rows =
    register_as w now random grants given (application_type_of given.application_type) rows
