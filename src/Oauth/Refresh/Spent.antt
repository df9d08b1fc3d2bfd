-- ===== src/Oauth/Refresh/Spent.antt =====
-- What the operations of server/src/oauth leave of the rows of a refresh token that was replaced.
use mcp_ui.Common.{
  ℕ, ◌≡◌, refl, sym, subst, String, Bool, true, false, ◌&&◌, ◌||◌, not, Option, none, some, leb,
  ◌==◌, string_eq, option_eq, Bool-cases, Option-cases, inl, inr, arith, if◌then◌else◌,
}
use mcp_ui.Common.Rows.{first, All}
use mcp_ui.Common.Rows.Laws.{All-update}
use mcp_ui.Normalize.{Text}
use mcp_ui.Tokens.{TokenKind, well_formed}
use mcp_ui.Oauth.Types.{RefreshRow, GrantRow, Tables, Env, Draws, is_set, hash_of}
use mcp_ui.Oauth.Grants.{issue_tokens, establish_grant, revoke_grant, grant_at}
use mcp_ui.Oauth.Codes.{AuthorizationCodeRecord, consumable, consume_authorization_code}
use mcp_ui.Oauth.Refresh.{
  RefreshOutcome, replay, theft, dead, wrong_client, invalid_target, invalid_dpop, invalid, unknown,
  RefreshRequest, locked_row, narrowed, retire, rotate, presented_again, decide, rotate_refresh,
  within_grace, successor_used,
}
use mcp_ui.Oauth.Refresh.Once.{Fresh}
use mcp_ui.Oauth.Token.{
  Answer, TokenError, invalid_request, invalid_dpop_proof, tokens, failed, CodeRequest, Proof,
  absent, refused, proven, check_code, exchange_record, exchange_found, redeem, exchange_code,
  grant_of, first_party_client_id,
}

-- Consuming a code writes no refresh token.
consume-reads :
    (env : Env) (now : ℕ) (code : Option Text) (t : Tables)
    → (consume_authorization_code env now code t).1.refresh_tokens ≡ t.refresh_tokens
unfolding consume_authorization_code
consume-reads env now none t = refl
consume-reads env now (some code) t =
    elim (Bool-cases (well_formed env.crc32 TokenKind.code code)) [
      | inr bad ↦ rw bad refl
      | inl good ↦ elim (Option-cases (first (consumable env now code) t.codes)) [
        | inl e ↦ rw (good, e) refl
        | inr (row, e) ↦ rw (good, e) refl
      ]
    ]

-- Both branches of an `if` keep what holds before it.
either_keeps {ℓ κ} :
    {A : Type ℓ} (P : A → Type κ) (b : Bool) {x y : A} → P x → P y → P (if b then x else y)
either_keeps P true h k = h
either_keeps P false h k = k

module _ (env : Env) (token : Text) where
  -- A row of the token has been replaced.
  abbrev pub IsSpent : RefreshRow → Type 0
  IsSpent r = (hash_of env token r.token_hash && not (is_set r.replaced_by)) ≡ false

  abbrev pub AllSpent : Tables → Type 0
  AllSpent t = All IsSpent t.refresh_tokens

  -- The same of what an operation leaves.
  record Leaves {A : Type 0} (left : A × Tables) : Type 0 where
    spent : AllSpent left.1

  issued-AllSpent :
      (now : ℕ) (draws : Draws) (grant_id audience : String) (scope : Text) (with_refresh : Bool)
      (jkt : Option String) (t : Tables)
      → Fresh env draws token
      → AllSpent t
      → AllSpent (issue_tokens env now draws grant_id audience scope with_refresh jkt t).1
  unfolding issue_tokens
  issued-AllSpent now draws grant_id audience scope true jkt t fresh h = (rw fresh refl, h)
  issued-AllSpent now draws grant_id audience scope false jkt t fresh h = h

  retired-AllSpent :
      (now : ℕ) (draws : Draws) (row : RefreshRow) (t : Tables)
      → AllSpent t
      → AllSpent (retire env now draws row t)
  unfolding retire
  retired-AllSpent now draws row t h =
      All-update IsSpent _ _ t.refresh_tokens (λ r _ _. ground arith) h

  pub revoked-AllSpent :
      (now : ℕ) (grant_id : String) (t : Tables)
      → AllSpent t
      → AllSpent (revoke_grant now grant_id t)
  unfolding revoke_grant
  revoked-AllSpent now grant_id t h = All-update IsSpent _ _ t.refresh_tokens (λ r _ k. k) h

  module _ (now : ℕ) (draws : Draws) (fresh : Fresh env draws token) where
    rotate-AllSpent :
        (scope : Option Text) (row : RefreshRow) (grant : GrantRow) (t : Tables)
        → AllSpent t
        → AllSpent (rotate env now draws scope row grant t).1
    unfolding rotate
    rotate-AllSpent none row grant t h = h
    rotate-AllSpent (some scope) row grant t h =
        retired-AllSpent now draws row _
          (issued-AllSpent now draws row.grant_id row.audience scope true grant.dpop_jkt t fresh h)

    decide-AllSpent :
        (request : RefreshRequest) (row : RefreshRow) (grant : GrantRow) (t : Tables)
        → AllSpent t
        → Leaves (decide env now draws request row grant t)
    unfolding decide presented_again
    decide-AllSpent request row grant t h =
        either_keeps Leaves (is_set grant.dpop_jkt && not (grant.dpop_jkt == request.presented_jkt))
          (same invalid_dpop)
          (either_keeps Leaves (is_set row.replaced_by)
            (either_keeps Leaves (is_set grant.revoked_at) (same (invalid dead)) (
              either_keeps Leaves
                (within_grace now request.grace_seconds row
                  && (not (successor_used t row) && grant.client_id == request.client_id))
                (same replay) gone))
            (either_keeps Leaves
              (is_set row.revoked_at || (is_set grant.revoked_at || leb row.expires_at now))
              (same (invalid dead))
              (either_keeps Leaves (grant.client_id == request.client_id)
                (either_keeps Leaves
                  (is_set request.resource && not (request.resource == some row.audience))
                  (same invalid_target)
                  (record {
                    spent = rotate-AllSpent (narrowed request.scope row.scope) row grant t h;
                  }))
                (same (invalid wrong_client)))))
      where
        same : (o : RefreshOutcome) → Leaves (o, t)
        same o = record { spent = h }

        gone : Leaves (theft, revoke_grant now row.grant_id t)
        gone = record { spent = revoked-AllSpent now row.grant_id t h }

    pub refresh-AllSpent :
        (presented : Option Text) (request : RefreshRequest) (t : Tables)
        → AllSpent t
        → AllSpent (rotate_refresh env now draws presented request t).1
    unfolding rotate_refresh
    refresh-AllSpent none request t h = h
    refresh-AllSpent (some presented) request t h =
        (either_keeps Leaves (well_formed env.crc32 TokenKind.refresh presented)
          (found (locked_row env presented t)) (record { spent = h })).spent
      where
        owned :
            (row : RefreshRow) (o : Option GrantRow)
            → Leaves (elim o as (λ x. RefreshOutcome × Tables) [
              | none ↦ (invalid unknown, t)
              | some grant ↦ decide env now draws request row grant t
            ])
        owned row none = record { spent = h }
        owned row (some grant) = decide-AllSpent request row grant t h

        found :
            (o : Option RefreshRow)
            → Leaves (elim o as (λ x. RefreshOutcome × Tables) [
              | none ↦ (invalid unknown, t)
              | some row ↦ elim (grant_at t row.grant_id) as (λ x. RefreshOutcome × Tables) [
                | none ↦ (invalid unknown, t)
                | some grant ↦ decide env now draws request row grant t
              ]
            ])
        found none = record { spent = h }
        found (some row) = owned row (grant_at t row.grant_id)

    record-AllSpent :
        (request : CodeRequest) (client_id : String) (jkt : Option String)
        (found : AuthorizationCodeRecord) (t : Tables)
        → AllSpent t
        → Leaves (exchange_record env now draws request client_id jkt found t)
    unfolding exchange_record establish_grant
    record-AllSpent request client_id jkt found t h =
        either_keeps Leaves found.already_consumed (record { spent = taken found.row.grant_id })
          (either_keeps Leaves found.expired (record { spent = h })
            (checked (check_code env request client_id jkt found.row)))
      where
        taken :
            (o : Option String)
            → AllSpent (elim o as (λ x. Tables) [ none ↦ t | some id ↦ revoke_grant now id t ])
        taken none = h
        taken (some id) = revoked-AllSpent now id t h

        checked :
            (o : Option TokenError)
            → Leaves (elim o as (λ x. Answer × Tables) [
              | some error ↦ (failed error, t)
              | none ↦
                  (let (issued, t') =
                      establish_grant env now draws (grant_of env request.code jkt found.row) t in
                    (tokens issued, t'))
            ])
        checked (some error) = record { spent = h }
        checked none = record { spent = issued-AllSpent now draws _ _ _ _ _ _ fresh h }

    redeem-AllSpent :
        (request : CodeRequest) (client_id : String) (jkt : Option String) (t : Tables)
        → AllSpent t
        → Leaves (redeem env now draws request client_id jkt t)
    unfolding redeem
    redeem-AllSpent request client_id jkt t h =
        either_keeps Leaves (client_id == first_party_client_id && not (is_set jkt))
          (record { spent = h })
          (found (consume_authorization_code env now request.code t) (consumed request.code))
      where
        found :
            (x : Option AuthorizationCodeRecord × Tables)
            → AllSpent x.1
            → Leaves (exchange_found env now draws request client_id jkt x)
        found (none, left) k = record { spent = k }
        found (some code, left) k = record-AllSpent request client_id jkt code left k

        consumed : (code : Option Text) → AllSpent (consume_authorization_code env now code t).1
        consumed code = subst (All IsSpent) (sym (consume-reads env now code t)) h

    pub code-AllSpent :
        (request : CodeRequest) (proof : Proof) (t : Tables)
        → AllSpent t
        → AllSpent (exchange_code env now draws request proof t).1
    unfolding exchange_code
    code-AllSpent request proof t h = (client request.client_id).spent
      where
        by_proof :
            (client_id : String) (proof : Proof)
            → Leaves (elim proof as (λ x. Answer × Tables) [
              | refused ↦ (failed invalid_dpop_proof, t)
              | absent ↦ redeem env now draws request client_id none t
              | proven jkt ↦ redeem env now draws request client_id (some jkt) t
            ])
        by_proof client_id refused = record { spent = h }
        by_proof client_id absent = redeem-AllSpent request client_id none t h
        by_proof client_id (proven jkt) = redeem-AllSpent request client_id (some jkt) t h

        client :
            (o : Option String)
            → Leaves (elim o as (λ x. Answer × Tables) [
              | none ↦ (failed invalid_request, t)
              | some client_id ↦
                  if client_id == ""
                  then (failed invalid_request, t)
                  else elim proof as (λ x. Answer × Tables) [
                    | refused ↦ (failed invalid_dpop_proof, t)
                    | absent ↦ redeem env now draws request client_id none t
                    | proven jkt ↦ redeem env now draws request client_id (some jkt) t
                  ]
            ])
        client none = record { spent = h }
        client (some client_id) =
            either_keeps Leaves (client_id == "") (record { spent = h }) (by_proof client_id proof)
