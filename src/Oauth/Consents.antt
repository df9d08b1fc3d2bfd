-- ===== src/Oauth/Consents.antt =====
-- server/src/oauth/consents.ts: what a person has approved, and when it may be used again.
pub mod Sets
pub mod Covered
pub mod Recorded
mod Tests
use mcp_ui.Common.{
  ℕ, ◌+◌, ◌*◌, String, Bool, true, false, ◌&&◌, not, Option, none, some, List, [], ◌∷◌, ltb, ◌==◌,
  string_eq, option_eq, if◌then◌else◌,
}
use mcp_ui.Common.Rows.{first, update, every}
use mcp_ui.Normalize.{Text}
use mcp_ui.Errors.{Failure, other_error}
use mcp_ui.Exec.{Result, ok, err}
use mcp_ui.Oauth.Scope.{words, is_blank, join, includes}
use mcp_ui.Oauth.Types.{
  ClientKind, cimd, dcr, preregistered, ClientTrust, verified, unverified, PendingAuthorization,
  seconds,
}
use mcp_ui.Oauth.Clients.Urls.{Url, Web, host_or_protocol}
use mcp_ui.Oauth.Consents.Sets.{union, sort}

abbrev pub unverified_days : ℕ
unverified_days = 30

abbrev pub verified_days : ℕ
verified_days = 365

pub record ConsentRow : Type 0 where
  pub id : String
  pub account_id : String
  pub client_id : String
  pub redirect_host : String
  pub scopes : Text
  pub document_digest : Option String
  pub granted_at : ℕ

abbrev host_of : Option Url → Result String
host_of none = err (other_error "Invalid URL")
host_of (some url) = ok (host_or_protocol url)

-- `redirectHost`, which throws for what is no URL.
unfoldable pub redirect_host : Web → String → Result String
redirect_host web redirect_uri = host_of (web.parse_url redirect_uri)

abbrev is_dcr : ClientKind → Bool
is_dcr dcr = true
is_dcr cimd = false
is_dcr preregistered = false

-- `rememberable`
unfoldable pub rememberable : PendingAuthorization → Bool
rememberable pending = not (is_dcr pending.request.client_kind)

abbrev pub days_for : ClientTrust → ℕ
days_for verified = verified_days
days_for unverified = unverified_days

-- The key of a consent.
abbrev pub consent_of : String → String → String → ConsentRow → Bool
consent_of account_id client_id host row =
    row.account_id == account_id && (row.client_id == client_id && row.redirect_host == host)

-- `granted_at > now() - make_interval(days => $4)`, of a day of 24 hours.
abbrev pub in_days : ℕ → ℕ → ConsentRow → Bool
in_days now days row = ltb now (row.granted_at + seconds (86400 * days))

-- The tests on the row; the empty words of the split are never a scope of a pending authorization.
abbrev pub covered : PendingAuthorization → Option ConsentRow → Option String
covered pending none = none
covered pending (some row) =
    if not (row.document_digest == pending.request.document_digest)
    then none
    else (if every (λ scope. includes (words is_blank row.scopes) scope) pending.request.scopes
        then some row.id
        else none)

abbrev pub find_at :
    ℕ → String → PendingAuthorization → Result String → List ConsentRow → Result (Option String)
find_at now account_id pending (err e) rows = err e
find_at now account_id pending (ok host) rows = ok (
    covered pending (
      first
        (λ row.
          consent_of account_id pending.request.client_id host row
          && in_days now (days_for pending.request.client_trust) row)
        rows))

-- `findRememberedConsent`
unfoldable pub find_remembered_consent :
    Web → ℕ → String → PendingAuthorization → List ConsentRow → Result (Option String)
find_remembered_consent web now account_id pending rows =
    if not (rememberable pending)
    then ok none
    else find_at now account_id pending (redirect_host web pending.request.redirect_uri) rows

-- The scopes of the row that is kept: those approved now and those of an earlier approval under the
-- same document.
abbrev pub approved : PendingAuthorization → Option ConsentRow → List Text
approved pending none = union [] pending.request.scopes
approved pending (some previous) =
    let asked = union [] pending.request.scopes in
    if previous.document_digest == pending.request.document_digest
    then union asked (words is_blank previous.scopes)
    else asked

-- The SET of the upsert.
abbrev pub renewed : ℕ → PendingAuthorization → Text → ConsentRow → ConsentRow
renewed now pending scopes row = record row {
  scopes = scopes;
  document_digest = pending.request.document_digest;
  granted_at = now;
}

-- INSERT … ON CONFLICT (account_id, client_id, redirect_host) DO UPDATE … RETURNING id; the id of a
-- new row is drawn at random.
abbrev pub upsert :
    ℕ
    → String
    → String
    → PendingAuthorization
    → String
    → Text
    → Option ConsentRow
    → List ConsentRow
    → Option String × List ConsentRow
upsert now new_id account_id pending host scopes (some previous) rows = (
  some previous.id,
  update (consent_of account_id pending.request.client_id host) (renewed now pending scopes) rows,
)
upsert now new_id account_id pending host scopes none rows =
    let row : ConsentRow = record {
      id = new_id;
      account_id = account_id;
      client_id = pending.request.client_id;
      redirect_host = host;
      scopes = scopes;
      document_digest = pending.request.document_digest;
      granted_at = now;
    } in
    (some new_id, row ∷ rows)

abbrev pub record_at :
    ℕ
    → String
    → String
    → PendingAuthorization
    → Result String
    → List ConsentRow
    → Result (Option String) × List ConsentRow
record_at now new_id account_id pending (err e) rows = (err e, rows)
record_at now new_id account_id pending (ok host) rows =
    let previous = first (consent_of account_id pending.request.client_id host) rows in
    let scopes = join (sort (approved pending previous)) in
    let (id, rows') = upsert now new_id account_id pending host scopes previous rows in
    (ok id, rows')

-- `recordConsent`
unfoldable pub record_consent :
    Web
    → ℕ
    → String
    → String
    → PendingAuthorization
    → List ConsentRow
    → Result (Option String) × List ConsentRow
record_consent web now new_id account_id pending rows =
    if not (rememberable pending)
    then (ok none, rows)
    else record_at now new_id account_id pending (redirect_host web pending.request.redirect_uri)
        rows
