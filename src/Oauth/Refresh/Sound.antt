-- ===== src/Oauth/Refresh/Sound.antt =====
-- What a rotation presupposes, and what it does to the token.
use mcp_ui.Common.{
  ℕ, ◌<◌, ◌≡◌, ◌≢◌, refl, sym, ap, String, true, false, ◌&&◌, ◌||◌, not, Option, none, some, List,
  ◌∷◌, leb, ◌==◌, string_eq, nat_eq, list_eq, option_eq, Bool-cases, Option-cases, inl, inr, ◌⊎◌,
  arith, text_eq, ◌+◌, ◌∙◌, subst,
}
use mcp_ui.Common.Rows.{update}
use mcp_ui.Normalize.{Text}
use mcp_ui.Tokens.{TokenKind, well_formed, mint}
use mcp_ui.Oauth.Types.{RefreshRow, GrantRow, Tables, Env, Draws, is_set, seconds, digest}
use mcp_ui.Oauth.Grants.{IssuedTokens, issue_tokens, grant_at}
use mcp_ui.Oauth.Refresh.Narrowed.{Within, narrowed-Within}
use mcp_ui.Oauth.Refresh.{
  rotated, invalid, unknown, RefreshRequest, locked_row, narrowed, rotate, retire, decide,
  presented_again, rotate_refresh,
}

-- The row and the grant allow the rotation that is asked for.
pub record Rotatable (now : ℕ) (request : RefreshRequest) (row : RefreshRow) (grant : GrantRow)
    : Type 0 where
  pub unreplaced : row.replaced_by ≡ none
  pub unrevoked : row.revoked_at ≡ none
  pub grant_unrevoked : grant.revoked_at ≡ none
  pub unexpired : now < row.expires_at
  pub same_client : grant.client_id ≡ request.client_id
  pub same_resource : (request.resource ≡ none) ⊎ (request.resource ≡ some row.audience)
  pub same_key : (grant.dpop_jkt ≡ none) ⊎ (grant.dpop_jkt ≡ request.presented_jkt)

-- A value that is set has to be the other one.
matching : (a b : Option String) → (is_set a && not (a == b)) ≡ false → (a ≡ none) ⊎ (a ≡ b)
matching none b e = inl refl
matching (some x) none e = absurd (ground arith)
matching (some x) (some y) e = inr (ap some ((text_eq x y).0 (ground arith)))

-- What a rotation stores: an access token for the row's audience and grant under the grant's key,
-- and a refresh token that follows the row.
pub record Stored (env : Env) (now : ℕ) (row : RefreshRow) (grant : GrantRow)
    (issued : IssuedTokens) (before left : Tables) : Type 0 where
  pub access :
      left.access_tokens
      ≡ record {
        token_hash = digest env issued.access_token;
        grant_id = row.grant_id;
        audience = row.audience;
        scope = issued.scope;
        cnf_jkt = grant.dpop_jkt;
        expires_at = now + seconds issued.expires_in;
      }
        ∷ before.access_tokens
  pub token : Text
  pub given : issued.refresh_token ≡ some token
  pub next : RefreshRow
  pub rest : List RefreshRow
  pub refresh : left.refresh_tokens ≡ next ∷ rest
  pub next_hash : next.token_hash ≡ digest env token
  pub next_grant : next.grant_id ≡ row.grant_id
  pub next_audience : next.audience ≡ row.audience
  pub next_scope : next.scope ≡ issued.scope

module _ (env : Env) (now : ℕ) (draws : Draws) (request : RefreshRequest) (t : Tables) where
  again-not_rotated :
      (row : RefreshRow) (grant : GrantRow) (issued : IssuedTokens)
      → (presented_again now request row grant t).0 ≢ rotated issued
  unfolding presented_again
  again-not_rotated row grant issued e = ground arith

  rotate-Within :
      (row : RefreshRow) (grant : GrantRow) (issued : IssuedTokens)
      → (rotate env now draws (narrowed request.scope row.scope) row grant t).0 ≡ rotated issued
      → (narrowed request.scope row.scope ≡ some issued.scope) × Within row.scope issued.scope
  unfolding rotate issue_tokens
  rotate-Within row grant issued e = elim (Option-cases (narrowed request.scope row.scope)) [
    | inl none' ↦ absurd (cc)
    | inr (scope, got) ↦
        let same : scope ≡ issued.scope = scope_of (rw got at e) in
        rw (sym same) (got, narrowed-Within request.scope row.scope scope got)
  ]
    where
      scope_of : {a b : IssuedTokens} → rotated a ≡ rotated b → a.scope ≡ b.scope
      scope_of e = cc

  decide-Rotatable :
      (row : RefreshRow) (grant : GrantRow) (issued : IssuedTokens)
      → (decide env now draws request row grant t).0 ≡ rotated issued
      → Rotatable now request row grant
        × (decide env now draws request row grant t
            ≡ rotate env now draws (some issued.scope) row grant t)
        × Within row.scope issued.scope
  unfolding decide
  decide-Rotatable row grant issued e =
      elim (Bool-cases (is_set grant.dpop_jkt && not (grant.dpop_jkt == request.presented_jkt))) [
        | inl other_key ↦ absurd (ground arith)
        | inr key ↦ elim (Bool-cases (is_set row.replaced_by)) [
          | inl again ↦ absurd (again-not_rotated row grant issued (rw (key, again) at e))
          | inr fresh ↦
              elim (Bool-cases
                (is_set row.revoked_at || (is_set grant.revoked_at || leb row.expires_at now))) [
                  | inl off ↦ absurd (ground arith)
                  | inr on ↦ elim (Bool-cases (grant.client_id == request.client_id)) [
                    | inr other_client ↦ absurd (ground arith)
                    | inl client ↦
                        elim (Bool-cases (
                          is_set request.resource && not (request.resource == some row.audience))) [
                            | inl other_resource ↦ absurd (ground arith)
                            | inr resource ↦
                                let last : (rotate env now draws (narrowed request.scope row.scope)
                                      row grant t).0
                                    ≡ rotated issued =
                                  rw (key, fresh, on, client, resource) at e in
                                let (got, inside) = rotate-Within row grant issued last in
                                (
                                  record {
                                    unreplaced = ground arith;
                                    unrevoked = ground arith;
                                    grant_unrevoked = ground arith;
                                    unexpired = ground arith;
                                    same_client =
                                        (text_eq grant.client_id request.client_id).0 client;
                                    same_resource =
                                        matching request.resource (some row.audience) resource;
                                    same_key = matching grant.dpop_jkt request.presented_jkt key;
                                  },
                                  rw (key, fresh, on, client, resource, got) refl,
                                  inside,
                                )
                          ]
                  ]
                ]
        ]
      ]

  -- What a rotation has looked up, and that it is the run of `rotate`.
  pub record Rotation (token : Text) (issued : IssuedTokens) : Type 0 where
    pub row : RefreshRow
    pub grant : GrantRow
    pub good : well_formed env.crc32 TokenKind.refresh token ≡ true
    pub at : locked_row env token t ≡ some row
    pub owner : grant_at t row.grant_id ≡ some grant
    pub can : Rotatable now request row grant
    pub run :
        rotate_refresh env now draws (some token) request t
        ≡ rotate env now draws (some issued.scope) row grant t
    pub inside : Within row.scope issued.scope

  pub rotated-Rotation :
      (token : Text) (issued : IssuedTokens)
      → (rotate_refresh env now draws (some token) request t).0 ≡ rotated issued
      → Rotation token issued
  unfolding rotate_refresh
  rotated-Rotation token issued e =
      elim (Bool-cases (well_formed env.crc32 TokenKind.refresh token)) [
        | inr malformed ↦ absurd (ground arith)
        | inl good ↦ elim (Option-cases (locked_row env token t)) [
          | inl missing ↦ absurd (rotated_invalid (rw (good, missing) at e))
          | inr (row, at) ↦ elim (Option-cases (grant_at t row.grant_id)) [
            | inl missing ↦ absurd (rotated_invalid (rw (good, at, missing) at e))
            | inr (grant, owner) ↦
                let (can, run, inside) =
                  decide-Rotatable row grant issued (rw (good, at, owner) at e) in
                record {
                  row = row;
                  grant = grant;
                  good = good;
                  at = at;
                  owner = owner;
                  can = can;
                  run = rw (good, at, owner) run;
                  inside = inside;
                }
          ]
        ]
      ]
    where
      rotated_invalid : {i : IssuedTokens} → invalid unknown ≡ rotated i → ⊥
      rotated_invalid e = cc

  rotate-Stored :
      (scope : Text) (row : RefreshRow) (grant : GrantRow) (issued : IssuedTokens)
      → (rotate env now draws (some scope) row grant t).0 ≡ rotated issued
      → Stored env now row grant issued t (rotate env now draws (some scope) row grant t).1
  unfolding rotate issue_tokens retire update
  rotate-Stored scope row grant issued e =
      subst (λ i. Stored env now row grant i t (rotate env now draws (some scope) row grant t).1)
        (answered e) stored
    where
      answered : {a b : IssuedTokens} → rotated a ≡ rotated b → a ≡ b
      answered e = cc

      fresh_hash : String
      fresh_hash = digest env (mint env.crc32 TokenKind.refresh draws.refresh)

      stored :
          Stored env now row grant
            (issue_tokens env now draws row.grant_id row.audience scope true grant.dpop_jkt t).0
            t
            (rotate env now draws (some scope) row grant t).1
      stored = record {
        access = refl;
        token = mint env.crc32 TokenKind.refresh draws.refresh;
        given = refl;
        next = _;
        rest = _;
        refresh = refl;
        next_hash = ground arith;
        next_grant = ground arith;
        next_audience = ground arith;
        next_scope = ground arith;
      }

  -- A rotation answers only where all of this holds: the presented token is that of a stored row
  -- whose grant exists, the row was not replaced, neither it nor the grant is revoked, it has not
  -- expired, the client is the grant's, a resource that is named is the row's audience, a bound
  -- grant's key signed the request's proof, and each word of the new scope is one of the row's. What
  -- is stored then is an access token of that scope for the row's audience and grant, bound to the
  -- grant's key, and a refresh token of that scope for the same audience and grant.
  pub rotated-Rotatable :
      (presented : Option Text) (issued : IssuedTokens)
      → (rotate_refresh env now draws presented request t).0 ≡ rotated issued
      → (token : Text) × (row : RefreshRow) × (grant : GrantRow) × (presented ≡ some token)
        × (locked_row env token t ≡ some row)
        × (grant_at t row.grant_id ≡ some grant)
        × Rotatable now request row grant
        × Within row.scope issued.scope
        × Stored env now row grant issued t (rotate_refresh env now draws presented request t).1
  unfolding rotate_refresh
  rotated-Rotatable none issued e = absurd (unknown_token e)
    where
      unknown_token : {i : IssuedTokens} → invalid unknown ≡ rotated i → ⊥
      unknown_token e = cc
  rotated-Rotatable (some token) issued e =
      let r = rotated-Rotation token issued e in
      (
        token,
        r.row,
        r.grant,
        refl,
        r.at,
        r.owner,
        r.can,
        r.inside,
        subst (λ x. Stored env now r.row r.grant issued t x.1) (sym r.run)
            (rotate-Stored issued.scope r.row r.grant issued (sym (ap (λ x. x.0) r.run) ∙ e)),
      )
