-- ===== src/Oauth/Codes/Claim.antt =====
-- An authorization in flight ends in one code.
use mcp_ui.Common.{
  ℕ, ◌≡◌, refl, String, Bool, false, none, List, [], ◌∷◌, ◌==◌, string_eq, Bool-cases, inl, inr,
}
use mcp_ui.Common.Rows.{any, All}
use mcp_ui.Common.Rows.Laws.{delete-All}
use mcp_ui.Normalize.{Text}
use mcp_ui.Oauth.Types.{PendingRow, PendingAuthorization, Tables, Env}
use mcp_ui.Oauth.Codes.{
  CodeContext, claim_and_issue_code, issue_authorization_code, delete_pending_authorization,
}

any-false :
    (p : PendingRow → Bool) (rows : List PendingRow)
    → All (λ r. p r ≡ false) rows
    → any p rows ≡ false
unfolding any
any-false p [] h = refl
any-false p (r ∷ rows) h = rw h.0 (any-false p rows h.1)

-- Of two submissions of one authorization at most one mints a code: after a claim of a pending
-- authorization, whatever it gave, a claim of the same one gives no code and changes nothing.
pub claim_once :
    (env : Env) (now later : ℕ) (random other : Text) (account_id other_account : String)
    (pending : PendingAuthorization) (context next : CodeContext) (t : Tables)
    → claim_and_issue_code env later other other_account pending next
        (claim_and_issue_code env now random account_id pending context t).1
      ≡ (none, (claim_and_issue_code env now random account_id pending context t).1)
unfolding claim_and_issue_code issue_authorization_code delete_pending_authorization
claim_once env now later random other account_id other_account pending context next t =
    elim (Bool-cases (any (λ p. p.id == pending.id) t.pending)) [
      | inl there ↦ rw there (
          rw
            (any-false (λ p. p.id == pending.id) _ (delete-All (λ p. p.id == pending.id) t.pending))
            refl)
      | inr gone ↦ rw gone (rw gone refl)
    ]
