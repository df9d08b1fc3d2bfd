-- ===== src/Oauth/Verify/Sound.antt =====
-- What a verified access token presupposes, and that a revoked grant verifies none.
use mcp_ui.Common.{
  ℕ, ◌+◌, ◌-◌, ◌/◌, ◌<◌, ◌≡◌, ◌≢◌, refl, sym, ap, String, true, false, ◌&&◌, not, none, some, List,
  [], ◌∷◌, ltb, ◌==◌, string_eq, Bool-cases, Option-cases, inl, inr, arith, text_eq, Memᴰ,
}
use mcp_ui.Common.Rows.{select, All}
use mcp_ui.Common.Rows.Laws.{first-some, delete-All, All-at}
use mcp_ui.Normalize.{Text}
use mcp_ui.Tokens.{TokenKind, well_formed}
use mcp_ui.Oauth.Scope.{words, is_blank, includes}
use mcp_ui.Oauth.Types.{AccessRow, GrantRow, Tables, Env, hash_of, is_set}
use mcp_ui.Oauth.Grants.{grant_at, grant_live, revoke_grant}
use mcp_ui.Oauth.Verify.{
  Verified, verified, invalid_token, insufficient_scope, missing, live_row, checked,
  verify_access_token,
}

-- The row and the grant that a verified token stands on.
pub record Grounds (env : Env) (now : ℕ) (audience : String) (token : Text) (required : List Text)
    (t : Tables) (v : Verified) : Type 0 where
  pub row : AccessRow
  pub grant : GrantRow
  pub stored : Memᴰ row t.access_tokens
  pub known : hash_of env token row.token_hash ≡ true
  pub unexpired : now < row.expires_at
  pub owner : grant_at t row.grant_id ≡ some grant
  pub unrevoked : grant.revoked_at ≡ none
  pub for_audience : row.audience ≡ audience
  pub allowed : All (λ scope. includes v.scopes scope ≡ true) required
  pub same_grant : v.grant_id ≡ row.grant_id
  pub same_account : v.account_id ≡ grant.account_id
  pub same_scopes : v.scopes ≡ words is_blank row.scope
  pub same_key : v.cnf_jkt ≡ row.cnf_jkt

-- Nothing is missing where every scope is granted.
none_missing :
    (required granted : List Text)
    → missing required granted ≡ []
    → All (λ s. includes granted s ≡ true) required
unfolding select
none_missing [] granted e = tt
none_missing (s ∷ required) granted e = elim (Bool-cases (includes granted s)) [
  | inl has ↦ (has, none_missing required granted (rw has at e))
  | inr lacks ↦ absurd (ground arith)
]

checked-verified :
    (now : ℕ) (audience : String) (required : List Text) (row : AccessRow) (grant : GrantRow)
    (v : Verified)
    → checked now audience required row grant ≡ verified v
    → (row.audience ≡ audience)
      × All (λ scope. includes (words is_blank row.scope) scope ≡ true) required
      × (v.grant_id ≡ row.grant_id)
      × (v.account_id ≡ grant.account_id)
      × (v.scopes ≡ words is_blank row.scope)
      × (v.cnf_jkt ≡ row.cnf_jkt)
unfolding checked
checked-verified now audience required row grant v e =
    elim (Bool-cases (row.audience == audience)) [
      | inr other ↦ absurd (ground arith)
      | inl same ↦
          go (missing required (words is_blank row.scope)) refl
            ((text_eq row.audience audience).0 same) (rw same at e)
    ]
  where
    verified_inj : {a b : Verified} → verified a ≡ verified b → a ≡ b
    verified_inj e = cc

    full : Verified
    full = record {
      account_id = grant.account_id;
      client_id = grant.client_id;
      grant_id = row.grant_id;
      scopes = words is_blank row.scope;
      expires_in = (row.expires_at - now + 500) / 1000;
      cnf_jkt = row.cnf_jkt;
    }

    go :
        (ms : List Text)
        → missing required (words is_blank row.scope) ≡ ms
        → row.audience ≡ audience
        → (elim ms [
          | [] ↦ verified full
          | _ ∷ _ ↦ insufficient_scope row.grant_id (words is_blank row.scope) required
        ])
          ≡ verified v
        → (row.audience ≡ audience)
          × All (λ scope. includes (words is_blank row.scope) scope ≡ true) required
          × (v.grant_id ≡ row.grant_id)
          × (v.account_id ≡ grant.account_id)
          × (v.scopes ≡ words is_blank row.scope)
          × (v.cnf_jkt ≡ row.cnf_jkt)
    go [] none_left aud h =
        let same = verified_inj h in
        (
          aud,
          none_missing required _ none_left,
          ap (λ x. x.grant_id) (sym same),
          ap (λ x. x.account_id) (sym same),
          ap (λ x. x.scopes) (sym same),
          ap (λ x. x.cnf_jkt) (sym same),
        )
    go (_ ∷ _) left aud h = absurd (ground arith)

module _ (env : Env) (now : ℕ) (audience : String) (token : Text) (required : List Text)
    (t : Tables) where
  -- A token is verified only on these grounds: a stored row of the token that has not expired and is
  -- for the audience asked for, and its grant, which is not revoked; the answer names that grant,
  -- its account, the row's scopes and key, and those scopes hold every scope that is required.
  pub verified-Grounds :
      (v : Verified)
      → verify_access_token env now audience (some token) required t ≡ verified v
      → Grounds env now audience token required t v
  unfolding verify_access_token
  verified-Grounds v e = elim (Bool-cases (well_formed env.crc32 TokenKind.access token)) [
    | inr malformed ↦ absurd (ground arith)
    | inl good ↦ elim (Option-cases (live_row env now token t)) [
      | inl none' ↦ absurd (not_verified (rw (good, none') at e))
      | inr (row, at) ↦ elim (Option-cases (grant_at t row.grant_id)) [
        | inl none' ↦ absurd (not_verified (rw (good, at, none') at e))
        | inr (grant, owner) ↦
            let (aud, allowed, g, a, s, k) =
              checked-verified now audience required row grant v (rw (good, at, owner) at e) in
            let (live, m) = first-some _ t.access_tokens at in
            record {
              row = row;
              grant = grant;
              stored = m;
              known = ground arith;
              unexpired = ground arith;
              owner = owner;
              unrevoked = unrevoked_of grant (rw (owner, grant_live) at (live_grant row live));
              for_audience = aud;
              allowed = rw s allowed;
              same_grant = g;
              same_account = a;
              same_scopes = s;
              same_key = k;
            }
      ]
    ]
  ]
    where
      not_verified : {x : Verified} → invalid_token ≡ verified x → ⊥
      not_verified e = cc

      live_grant :
          (row : AccessRow)
          → (hash_of env token row.token_hash
              && (ltb now row.expires_at && grant_live t row.grant_id))
            ≡ true
          → grant_live t row.grant_id ≡ true
      live_grant row live = ground arith

      unrevoked_of : (g : GrantRow) → not (is_set g.revoked_at) ≡ true → g.revoked_at ≡ none
      unrevoked_of g e = ground arith

-- Once a grant is revoked no access token is verified for it, whatever is asked and whenever.
pub revoked-verify :
    (env : Env) (now at : ℕ) (audience : String) (token : Text) (required : List Text) (t : Tables)
    (grant_id : String) (v : Verified)
    → verify_access_token env now audience (some token) required (revoke_grant at grant_id t)
      ≡ verified v
    → v.grant_id ≢ grant_id
unfolding revoke_grant
revoked-verify env now at audience token required t grant_id v e same =
    let g = verified-Grounds env now audience token required (revoke_grant at grant_id t) v e in
    let gone : (g.row.grant_id == grant_id) ≡ false =
      All-at (λ a. (a.grant_id == grant_id) ≡ false) _
        (delete-All (λ a. a.grant_id == grant_id) t.access_tokens) g.stored in
    absurd (ground (arith, gone, text_eq g.row.grant_id grant_id, g.same_grant, same))
