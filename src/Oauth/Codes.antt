-- ===== src/Oauth/Codes.antt =====
-- server/src/oauth/store.ts: authorizations in flight, and the codes that they end in.
pub mod Once
pub mod Claim
use mcp_ui.Common.{
  ℕ, ◌+◌, String, Bool, true, false, ◌&&◌, not, Option, none, some, List, [], ◌∷◌, leb, ltb, ◌==◌,
  string_eq, if◌then◌else◌,
}
use mcp_ui.Common.Rows.{first, any, update, delete}
use mcp_ui.Normalize.{Text}
use mcp_ui.Tokens.{TokenKind, mint, well_formed}
use mcp_ui.Oauth.Scope.{words, is_blank, join}
use mcp_ui.Oauth.Types.{
  CodeRow, PendingRow, PendingAuthorization, NewPendingAuthorization, Tables, Env, seconds, is_set,
  hash_of, digest,
}

-- `createPendingAuthorization`; the id is drawn at random.
unfoldable pub create_pending_authorization :
    Env → ℕ → String → NewPendingAuthorization → Text → Tables → String × Tables
create_pending_authorization env now id p binding_value t =
    let row : PendingRow = record {
      id = id;
      client_id = p.client_id;
      client_host = p.client_host;
      client_kind = p.client_kind;
      client_trust = p.client_trust;
      document_digest = p.document_digest;
      redirect_uri = p.redirect_uri;
      state = p.state;
      code_challenge = p.code_challenge;
      resource = p.resource;
      scope = join p.scopes;
      offline_access = p.offline_access;
      binding_hash = digest env binding_value;
      dpop_jkt = p.dpop_jkt;
      first_party = p.first_party;
      expires_at = now + seconds 900;
    } in
    (id, record t { pending = row ∷ t.pending })

-- The row as `readPendingAuthorization` answers it.
unfoldable pub pending_of : PendingRow → PendingAuthorization
pending_of row = record {
  id = row.id;
  binding_digest = row.binding_hash;
  request = record {
    client_id = row.client_id;
    client_host = row.client_host;
    client_kind = row.client_kind;
    client_trust = row.client_trust;
    document_digest = row.document_digest;
    redirect_uri = row.redirect_uri;
    state = row.state;
    code_challenge = row.code_challenge;
    resource = row.resource;
    scopes = words is_blank row.scope;
    offline_access = row.offline_access;
    dpop_jkt = row.dpop_jkt;
    first_party = row.first_party;
  };
}

-- `readPendingAuthorization`, of an id that is a string of 1 to 64 units; no id is longer.
unfoldable pub read_pending_authorization : ℕ → String → Tables → Option PendingAuthorization
read_pending_authorization now id t =
    elim (first (λ p. p.id == id && ltb now p.expires_at) t.pending) [
      | none ↦ none
      | some row ↦ some (pending_of row)
    ]

-- `pendingBelongsTo`
unfoldable pub pending_belongs_to : Env → PendingAuthorization → Option Text → Bool
pending_belongs_to env p none = false
pending_belongs_to env p (some value) =
    well_formed env.crc32 TokenKind.binding value && hash_of env value p.binding_digest

-- `deletePendingAuthorization`
unfoldable pub delete_pending_authorization : String → Tables → Tables
delete_pending_authorization id t = record t { pending = delete (λ p. p.id == id) t.pending }

pub record CodeContext : Type 0 where
  pub auth_time : ℕ
  pub consent_id : Option String

-- `issueAuthorizationCode`; the body of the code is drawn at random.
unfoldable pub issue_authorization_code :
    Env → ℕ → Text → String → PendingAuthorization → CodeContext → Tables → Text × Tables
issue_authorization_code env now random account_id pending context t =
    let code = mint env.crc32 TokenKind.code random in
    let row : CodeRow = record {
      code_hash = digest env code;
      account_id = account_id;
      client_id = pending.request.client_id;
      redirect_uri = pending.request.redirect_uri;
      code_challenge = pending.request.code_challenge;
      resource = pending.request.resource;
      scope = join pending.request.scopes;
      offline_access = pending.request.offline_access;
      auth_time = context.auth_time;
      consent_id = context.consent_id;
      dpop_jkt = pending.request.dpop_jkt;
      expires_at = now + seconds 60;
      consumed_at = none;
      grant_id = none;
    } in
    (code, record t { codes = row ∷ t.codes })

-- `claimAndIssueCode`. The id is the table's primary key, so one row is deleted or none.
unfoldable pub claim_and_issue_code :
    Env → ℕ → Text → String → PendingAuthorization → CodeContext → Tables → Option Text × Tables
claim_and_issue_code env now random account_id pending context t =
    if any (λ p. p.id == pending.id) t.pending
    then (let (code, t') =
          issue_authorization_code env now random account_id pending context
            (delete_pending_authorization pending.id t) in
        (some code, t'))
    else (none, t)

pub record AuthorizationCodeRecord : Type 0 where
  pub row : CodeRow
  pub already_consumed : Bool
  pub expired : Bool

-- The rows that the UPDATE of `consumeAuthorizationCode` finds.
abbrev pub consumable : Env → ℕ → Text → CodeRow → Bool
consumable env now code c =
    hash_of env code c.code_hash && (not (is_set c.consumed_at) && ltb now c.expires_at)

-- `consumeAuthorizationCode`. A record holds its row; of the row, `toCodeRecord` copies no more
-- than the columns account_id to grant_id, which the UPDATE leaves as they were.
unfoldable pub consume_authorization_code :
    Env → ℕ → Option Text → Tables → Option AuthorizationCodeRecord × Tables
consume_authorization_code env now none t = (none, t)
consume_authorization_code env now (some code) t =
    if well_formed env.crc32 TokenKind.code code
    then elim (first (consumable env now code) t.codes) [
      | some fresh ↦ (
        some (record { row = fresh; already_consumed = false; expired = false }),
        record t {
          codes =
              update (consumable env now code) (λ c. record c { consumed_at = some now }) t.codes;
        },
      )
      | none ↦ (
        elim (first (λ c. hash_of env code c.code_hash) t.codes) [
          | none ↦ none
          | some miss ↦ some (record {
            row = miss;
            already_consumed = is_set miss.consumed_at;
            expired = leb miss.expires_at now;
          })
        ],
        t,
      )
    ]
    else (none, t)
