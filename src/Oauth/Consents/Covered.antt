-- ===== src/Oauth/Consents/Covered.antt =====
-- server/src/oauth/consents.ts: when an approval is used again.
use mcp_ui.Common.{
  ℕ, ◌+◌, ◌*◌, ◌<◌, ◌≡◌, ◌≢◌, refl, sym, String, true, ◌&&◌, inl, inr, Option, none, some, List,
  ◌==◌, string_eq, option_eq, text_eq, arith, Bool-cases, Memᴰ, ap, ◌∙◌,
}
use mcp_ui.Common.Eq.{option_beq_iff}
use mcp_ui.Common.Rows.{first, every, All}
use mcp_ui.Common.Rows.Laws.{first-some, every-All}
use mcp_ui.Exec.{Result, ok, err}
use mcp_ui.Oauth.Scope.{words, is_blank, includes}
use mcp_ui.Oauth.Types.{ClientKind, PendingAuthorization, seconds}
use mcp_ui.Oauth.Clients.Urls.{Web}
use mcp_ui.Oauth.Consents.{
  ConsentRow, redirect_host, rememberable, days_for, consent_of, in_days, covered, find_at,
  find_remembered_consent,
}

-- An approval by the account that covers the authorization.
pub record Covers (web : Web) (now : ℕ) (account_id : String) (pending : PendingAuthorization)
    (row : ConsentRow) : Type 0 where
  pub account : row.account_id ≡ account_id
  pub client : row.client_id ≡ pending.request.client_id
  pub host : redirect_host web pending.request.redirect_uri ≡ ok row.redirect_host
  pub document : row.document_digest ≡ pending.request.document_digest
  pub recent : now < row.granted_at + seconds (86400 * days_for pending.request.client_trust)
  pub scopes :
      All (λ scope. includes (words is_blank row.scopes) scope ≡ true) pending.request.scopes
  pub known : pending.request.client_kind ≢ ClientKind.dcr

module _ (web : Web) (now : ℕ) (account_id : String) (pending : PendingAuthorization) where
  is_recent :
      (row : ConsentRow)
      → in_days now (days_for pending.request.client_trust) row ≡ true
      → now < row.granted_at + seconds (86400 * days_for pending.request.client_trust)
  is_recent row e = ground arith

  covered-Covers :
      (host : String) (o : Option ConsentRow) (rows : List ConsentRow) {id : String}
      → pending.request.client_kind ≢ ClientKind.dcr
      → redirect_host web pending.request.redirect_uri ≡ ok host
      → first
          (λ row.
            consent_of account_id pending.request.client_id host row
            && in_days now (days_for pending.request.client_trust) row)
          rows
        ≡ o
      → covered pending o ≡ some id
      → (row : ConsentRow) × Memᴰ row rows × (row.id ≡ id) × Covers web now account_id pending row
  covered-Covers host none rows known at found e = absurd cc
  covered-Covers host (some row) rows known at found e =
      let (t, m) =
        first-some
          (λ (row : ConsentRow).
            consent_of account_id pending.request.client_id host row
            && in_days now (days_for pending.request.client_trust) row)
          rows found in
      elim (Bool-cases (row.document_digest == pending.request.document_digest)) [
        | inr changed ↦ absurd (ground arith)
        | inl same ↦
            elim (Bool-cases (
              every (λ scope. includes (words is_blank row.scopes) scope) pending.request.scopes)) [
                | inr wider ↦ absurd (ground arith)
                | inl within ↦ (
                  row,
                  m,
                  inj (rw (same, within) at e),
                  record {
                    account = (text_eq row.account_id account_id).0 (ground arith);
                    client = (text_eq row.client_id pending.request.client_id).0 (ground arith);
                    host = at ∙ ap ok (sym ((text_eq row.redirect_host host).0 (ground arith)));
                    document =
                        (option_beq_iff row.document_digest pending.request.document_digest).0 same;
                    recent = is_recent row (ground arith);
                    scopes = every-All _ pending.request.scopes within;
                    known = known;
                  },
                )
              ]
      ]
    where
      inj : {a b : String} → some a ≡ some b → a ≡ b
      inj e = cc

  find_at-Covers :
      (o : Result String) (rows : List ConsentRow) {id : String}
      → pending.request.client_kind ≢ ClientKind.dcr
      → redirect_host web pending.request.redirect_uri ≡ o
      → find_at now account_id pending o rows ≡ ok (some id)
      → (row : ConsentRow) × Memᴰ row rows × (row.id ≡ id) × Covers web now account_id pending row
  find_at-Covers (err f) rows known at e = absurd cc
  find_at-Covers (ok host) rows known at e = covered-Covers host _ rows known at refl (inj e)
    where
      inj : {a b : Option String} → ok a ≡ ok b → a ≡ b
      inj e = cc

  -- The approval screen is skipped only on the strength of a row of the same account, client and
  -- redirect host, that was granted within 30 days, or 365 for a verified client, under the same
  -- metadata document, and lists every scope that is asked for; and never for a client that
  -- registered itself.
  pub remembered-Covers :
      (rows : List ConsentRow) {id : String}
      → find_remembered_consent web now account_id pending rows ≡ ok (some id)
      → (row : ConsentRow) × Memᴰ row rows × (row.id ≡ id) × Covers web now account_id pending row
  unfolding find_remembered_consent rememberable
  remembered-Covers rows e = elim (Bool-cases (rememberable pending)) [
    | inr dynamic ↦ absurd (skipped (rw dynamic at e))
    | inl lasting ↦
        find_at-Covers (redirect_host web pending.request.redirect_uri) rows (not_dcr lasting) refl
          (rw lasting at e)
  ]
    where
      skipped : {id : String} → ¬ (ok none ≡ ok (some id))
      skipped e = cc

      not_dcr : rememberable pending ≡ true → pending.request.client_kind ≢ ClientKind.dcr
      not_dcr e same = absurd (ground (arith, same))
