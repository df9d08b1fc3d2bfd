-- ===== src/Oauth/Authorize/Issued/Granted.antt =====
-- server/src/oauth/authorize.ts: a person who may approve does get a code to the client.
use mcp_ui.Common.{
  ℕ, ◌≡◌, refl, ap, String, true, ◌&&◌, inl, inr, Option, none, some, List, ltb, ◌==◌, string_eq,
  text_eq, beq_self, Bool-cases,
}
use mcp_ui.Common.Rows.{first, any}
use mcp_ui.Common.Rows.Laws.{first-some, any-Mem}
use mcp_ui.Normalize.{Text}
use mcp_ui.Tokens.{TokenKind, mint}
use mcp_ui.Exec.{Result, ok, err}
use mcp_ui.Oauth.Types.{PendingAuthorization, PendingRow, Tables}
use mcp_ui.Oauth.Codes.{
  read_pending_authorization, pending_of, pending_belongs_to, claim_and_issue_code,
  issue_authorization_code,
}
use mcp_ui.Oauth.Session.{AsSession}
use mcp_ui.Oauth.Consents.{ConsentRow, redirect_host, rememberable, record_at, record_consent}
use mcp_ui.Oauth.Authorize.Steps.{
  World, State, FlowDraws, Cookies, Form, code_to, recent_enough, csrf_for, mac_matches, go,
  step_for, read_pending, load_step, current_session, complete,
}
use mcp_ui.Oauth.Authorize.Consent.{complete_recorded, approve, post_consent}
use mcp_ui.Oauth.Authorize.Issued.{Ready}

-- An authorization that is read has its row in the table.
read-any :
    (now : ℕ) (id : String) (t : Tables) (o : Option PendingRow) {pending : PendingAuthorization}
    → first (λ (p : PendingRow). p.id == id && ltb now p.expires_at) t.pending ≡ o
    → read_pending_authorization now id t ≡ some pending
    → any (λ (p : PendingRow). p.id == pending.id) t.pending ≡ true
unfolding read_pending_authorization pending_of
read-any now id t none found e = absurd (empty (rw (read_pending_authorization, found) at e))
  where
    empty : {p : PendingAuthorization} → ¬ (none ≡ some p)
    empty e = cc
read-any now id t (some row) {pending} found e =
    let (fits, m) =
      first-some (λ (p : PendingRow). p.id == id && ltb now p.expires_at) t.pending found in
    let same : row.id ≡ pending.id =
      ap (λ p. p.id) (inj (rw (read_pending_authorization, found) at e)) in
    any-Mem (λ (p : PendingRow). p.id == pending.id) t.pending m
      ((text_eq row.id pending.id).1 same)
  where
    inj : {a b : PendingAuthorization} → some a ≡ some b → a ≡ b
    inj e = cc

pending-any :
    (now : ℕ) (id : Option String) (t : Tables) {pending : PendingAuthorization}
    → read_pending now id t ≡ some pending
    → any (λ (p : PendingRow). p.id == pending.id) t.pending ≡ true
pending-any now none t e = absurd cc
pending-any now (some id) t e = read-any now id t _ refl e

module _ (w : World) (now : ℕ) (draws : FlowDraws) (cookies : Cookies) where
  step_for-go :
      (cookie : Option Text) (pending : PendingAuthorization) (binding : Text)
      → cookie ≡ some binding
      → pending_belongs_to w.env pending cookie ≡ true
      → step_for w cookie (some pending) ≡ go pending binding
  step_for-go none pending binding e mine = absurd cc
  step_for-go (some b) pending binding e mine = rw mine (ap (go pending) cc)

  -- The answer with the code, where the authorization is still in the table.
  complete-code :
      (pending : PendingAuthorization) (session : AsSession) (consent : Option String) (s : State)
      → any (λ (p : PendingRow). p.id == pending.id) s.tables.pending ≡ true
      → (complete w now draws pending session consent s).0.response
        ≡ code_to pending.request.redirect_uri
            (mint w.env.crc32 TokenKind.code draws.code)
            pending.request.state
  unfolding complete claim_and_issue_code issue_authorization_code
  complete-code pending session consent s there = rw there refl

  recorded-ok :
      (host : String) (pending : PendingAuthorization) (account_id : String) (o : Result String)
      (rows : List ConsentRow)
      → o ≡ ok host
      → (id : Option String) × ((record_at now draws.consent_id account_id pending o rows).0
          ≡ ok id)
  recorded-ok host pending account_id (ok h) rows e = (_, refl)
  recorded-ok host pending account_id (err f) rows e = absurd cc

  consent-ok :
      (host : String) (pending : PendingAuthorization) (account_id : String)
      (rows : List ConsentRow)
      → redirect_host w.dir.web pending.request.redirect_uri ≡ ok host
      → (id : Option String) × ((record_consent w.dir.web now draws.consent_id account_id pending
            rows).0
          ≡ ok id)
  unfolding record_consent
  consent-ok host pending account_id rows e = elim (Bool-cases (rememberable pending)) [
    | inr dynamic ↦ rw dynamic (none, refl)
    | inl lasting ↦ rw lasting (
        recorded-ok host pending account_id (redirect_host w.dir.web pending.request.redirect_uri)
          rows e)
  ]

  recorded-code :
      (pending : PendingAuthorization) (session : AsSession)
      (r : Result (Option String) × List ConsentRow) (id : Option String) (s : State)
      → r.0 ≡ ok id
      → any (λ (p : PendingRow). p.id == pending.id) s.tables.pending ≡ true
      → (complete_recorded w now draws pending session r s).0.response
        ≡ code_to pending.request.redirect_uri
            (mint w.env.crc32 TokenKind.code draws.code)
            pending.request.state
  recorded-code pending session (ok c, rows) id s e there =
      complete-code pending session c (record s { consents = rows }) there
  recorded-code pending session (err f, rows) id s e there = absurd cc

  approve-code :
      (host : String) (pending : PendingAuthorization) (session : AsSession) (o : Option AsSession)
      (s : State)
      → o ≡ some session
      → recent_enough pending session ≡ true
      → redirect_host w.dir.web pending.request.redirect_uri ≡ ok host
      → any (λ (p : PendingRow). p.id == pending.id) s.tables.pending ≡ true
      → (approve w now draws pending o s).0.response
        ≡ code_to pending.request.redirect_uri
            (mint w.env.crc32 TokenKind.code draws.code)
            pending.request.state
  approve-code host pending session o s found recent at there =
      let (id, recorded) = consent-ok host pending session.account_id s.consents at in
      rw (found, recent)
        (recorded-code pending session
          (record_consent w.dir.web now draws.consent_id session.account_id pending s.consents) id s
          recorded there)

  -- Whoever sends the form of the consent page from the browser that the authorization was begun in,
  -- signed in, and recently if more than reading is asked for, is sent to the redirect URI of the
  -- authorization with a code and the client's state. The redirect URI can be parsed.
  pub post_consent-code :
      (form : Form) (s : State) (pending : PendingAuthorization) (session : AsSession)
      (host : String) (r : Ready w now draws cookies form.pending s pending session)
      → form.csrf ≡ some (csrf_for w pending r.binding)
      → redirect_host w.dir.web pending.request.redirect_uri ≡ ok host
      → (post_consent w now draws cookies form s).0.response
        ≡ code_to pending.request.redirect_uri
            (mint w.env.crc32 TokenKind.code draws.code)
            pending.request.state
  unfolding post_consent load_step current_session mac_matches
  post_consent-code form s pending session host r csrf at =
      rw
        (
          r.in_flight,
          step_for-go cookies.binding pending r.binding r.cookie r.belongs,
          csrf,
          beq_self (csrf_for w pending r.binding),
        )
        (approve-code host pending session _ _ r.signed_in r.recent at
          (pending-any now form.pending s.tables r.in_flight))
