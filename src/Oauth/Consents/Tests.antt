-- ===== src/Oauth/Consents/Tests.antt =====
-- Concrete runs of the approvals.
use mcp_ui.Common.{
  ℕ, ◌+◌, ◌≡◌, refl, String, true, false, none, list_eq, some, List, [], ◌∷◌, ◌==◌, nat_eq,
  string_eq, arith, Memᴰ,
}
use mcp_ui.Common.Rows.{All, first, any, every, All}
use mcp_ui.Normalize.{Text}
use mcp_ui.Exec.{ok}
use mcp_ui.Oauth.Fixtures.{repeat, web}
use mcp_ui.Oauth.Scope.{split_words, is_blank}
use mcp_ui.Oauth.Scope.Words.{IsWord}
use mcp_ui.Oauth.Types.{ClientKind, ClientTrust, PendingAuthorization}
use mcp_ui.Oauth.Consents.{
  ConsentRow, redirect_host, rememberable, find_remembered_consent, record_consent, consent_of,
  approved,
}
use mcp_ui.Oauth.Consents.Sets.{union}
use mcp_ui.Oauth.Consents.Covered.{Covers, remembered-Covers}
use mcp_ui.Oauth.Consents.Recorded.{Agreed, agreed_now, agreed_before, asking, recorded-remembered}

abbrev pending : List Text → PendingAuthorization
pending scopes = record {
  id = "pa";
  binding_digest = "B";
  request = record {
    client_id = "https://docs.example/client.json";
    client_host = "docs.example";
    client_kind = ClientKind.cimd;
    client_trust = ClientTrust.unverified;
    document_digest = some "digest";
    redirect_uri = "https://app.example/cb";
    state = none;
    code_challenge = repeat 97;
    resource = "mcp";
    scopes = scopes;
    offline_access = true;
    dpop_jkt = none;
    first_party = false;
  };
}

-- The scopes are 'r' and 'w'.
abbrev reading : Text
reading = 114 ∷ []

abbrev writing : Text
writing = 119 ∷ []

abbrev row : ConsentRow
row = record {
  id = "consent_1";
  account_id = "alice";
  client_id = "https://docs.example/client.json";
  redirect_host = "app.example";
  scopes = 114 ∷ 32 ∷ 119 ∷ [];
  document_digest = some "digest";
  granted_at = 1000;
}

remembered :
    find_remembered_consent web 2000 "alice" (pending (writing ∷ [])) (row ∷ [])
    ≡ ok (some "consent_1")
unfolding find_remembered_consent rememberable redirect_host first every any split_words
remembered = refl

remembered-Covers_example :
    (r : ConsentRow) × Memᴰ r (row ∷ [])
    × (r.id ≡ "consent_1")
    × Covers web 2000 "alice" (pending (writing ∷ [])) r
remembered-Covers_example =
    remembered-Covers web 2000 "alice" (pending (writing ∷ [])) (row ∷ []) remembered

-- Forty days later in milliseconds: the approval of 'r' and 'w' is over.
abbrev much_later : ℕ
much_later = 3456001000

forgotten :
    find_remembered_consent web much_later "alice" (pending (writing ∷ [])) (row ∷ []) ≡ ok none
unfolding find_remembered_consent rememberable redirect_host first every any split_words
forgotten = refl

host_parsed : redirect_host web "https://app.example/cb" ≡ ok "app.example"
unfolding redirect_host
host_parsed = refl

words : All (IsWord is_blank) (reading ∷ [])
words = (record { some_unit = λ e. cc; no_sep = (refl, tt) }, tt)

lasting : rememberable (pending (reading ∷ [])) ≡ true
unfolding rememberable
lasting = refl

-- Two days later.
abbrev two_days : ℕ
two_days = 172801000

at_top :
    first (consent_of "alice" "https://docs.example/client.json" "app.example") (row ∷ [])
    ≡ some row
unfolding first
at_top = refl

agreed :
    All
      (Agreed two_days "alice" (pending (reading ∷ [])) "app.example" (row ∷ []))
      (reading ∷ writing ∷ [])
unfolding any split_words
agreed = (agreed_now refl, (agreed_before row at_top (omega arith) refl refl, tt))

-- An approval of 'r' alone keeps the earlier one of 'w'.
recorded-remembered_example :
    let (answer, rows) =
      record_consent web two_days "consent_2" "alice" (pending (reading ∷ [])) (row ∷ []) in
    (id : String) × (answer ≡ ok (some id))
    × (find_remembered_consent web
          (two_days + 1000)
          "alice"
          (asking (pending (reading ∷ [])) (reading ∷ writing ∷ []))
          rows
        ≡ ok (some id))
recorded-remembered_example =
    recorded-remembered web two_days (two_days + 1000) "consent_2" "alice" (pending (reading ∷ []))
      "app.example" (row ∷ []) (reading ∷ writing ∷ []) lasting host_parsed words (omega arith)
      agreed

-- An approval of 'r' alone brings the expired one of 'w' back.
revived :
    find_remembered_consent web
      (much_later + 1000)
      "alice"
      (asking (pending (reading ∷ [])) (reading ∷ writing ∷ []))
      (record_consent web much_later "consent_2" "alice" (pending (reading ∷ [])) (row ∷ [])).1
    ≡ ok (some "consent_1")
unfolding find_remembered_consent record_consent rememberable redirect_host first every any
    split_words mcp_ui.Common.Rows.update mcp_ui.Oauth.Scope.join mcp_ui.Oauth.Consents.Sets.sort
    union mcp_ui.Oauth.Consents.Sets.insert mcp_ui.Oauth.Consents.Sets.text_leb
revived = refl
