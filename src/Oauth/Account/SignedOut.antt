-- ===== src/Oauth/Account/SignedOut.antt =====
-- server/src/oauth/account.ts: after "sign out everywhere" nothing of the account is left.
use mcp_ui.Common.{
  ℕ, ◌≡◌, ◌≢◌, refl, sym, ap, ◌∙◌, String, true, false, ◌&&◌, not, inl, inr, Option, none, some,
  List, [], ◌∷◌, ◌==◌, string_eq, text_eq, arith, Bool-cases, Memᴰ, beq_self,
}
use mcp_ui.Common.Rows.{first, select, any, All}
use mcp_ui.Common.Rows.Laws.{
  All-of, All-at, All-updated, All-across, any-Mem, Mem-select, first-some,
}
use mcp_ui.Normalize.{Text}
use mcp_ui.Tokens.{TokenKind, well_formed}
use mcp_ui.Oauth.Types.{GrantRow, Tables, Env, is_set}
use mcp_ui.Oauth.Grants.{revoke_grant}
use mcp_ui.Oauth.Verify.{Verified, verified, verify_access_token}
use mcp_ui.Oauth.Verify.Sound.{verified-Grounds}
use mcp_ui.Oauth.Session.{
  SessionRow, AsSession, live, session_of, read_as_session, revoked, revoke_all_as_sessions,
}
use mcp_ui.Oauth.Account.{AccountState, live_grant_of, revoke_each, sign_out_everywhere}

module _ (now : ℕ) (account_id : String) where
  -- The grants of the account that are still to be revoked are in the list.
  abbrev Left : List GrantRow → GrantRow → Type 0
  Left gs g =
      g.account_id ≡ account_id
      → is_set g.revoked_at ≡ false
      → any (λ (x : GrantRow). x.id == g.id) gs ≡ true

  select-Left : (rows : List GrantRow) → All (Left (select (live_grant_of account_id) rows)) rows
  select-Left rows = All-of (Left (select (live_grant_of account_id) rows)) rows (λ g m mine unset.
      any-Mem (λ (x : GrantRow). x.id == g.id) (select (live_grant_of account_id) rows)
        (Mem-select (live_grant_of account_id) rows m (unrevoked g mine unset)) (beq_self g.id))
    where
      unrevoked :
          (g : GrantRow)
          → g.account_id ≡ account_id
          → is_set g.revoked_at ≡ false
          → live_grant_of account_id g ≡ true
      unrevoked g mine unset = rw (mine, beq_self account_id, unset) refl

  still-Left :
      (g : GrantRow) (gs : List GrantRow) (x : GrantRow)
      → (x.id == g.id && not (is_set x.revoked_at)) ≡ false
      → Left (g ∷ gs) x
      → Left gs x
  unfolding any
  still-Left g gs x other h mine unset =
      ground (arith, h mine unset, text_eq g.id x.id, text_eq x.id g.id)

  revoke_each-All :
      (gs : List GrantRow) (t : Tables)
      → All (Left gs) t.grants
      → All (Left []) (revoke_each now gs t).grants
  unfolding revoke_each revoke_grant
  revoke_each-All [] t h = h
  revoke_each-All (g ∷ gs) t h = revoke_each-All gs (revoke_grant now g.id t) (
      All-across (Left (g ∷ gs)) (Left gs) (λ x. x.id == g.id && not (is_set x.revoked_at))
        (λ x. record x { revoked_at = some now }) t.grants (λ x e h mine unset. absurd cc)
        (still-Left g gs) h)

  none-Left :
      (rows : List GrantRow) {x : GrantRow}
      → All (Left []) rows
      → Memᴰ x rows
      → x.account_id ≡ account_id
      → is_set x.revoked_at ≡ true
  unfolding any
  none-Left rows {x} h m mine = elim (Bool-cases (is_set x.revoked_at)) [
    | inl ended ↦ ended
    | inr unset ↦ absurd (empty (All-at (Left []) rows h m mine unset))
  ]
    where
      empty : ¬ (false ≡ true)
      empty e = cc

  no_token :
      (env : Env) (later : ℕ) (audience : String) (token : Text) (required : List Text) (t : Tables)
      (v : Verified)
      → All (Left []) t.grants
      → verify_access_token env later audience (some token) required t ≡ verified v
      → v.account_id ≢ account_id
  no_token env later audience token required t v h e mine =
      let g = verified-Grounds env later audience token required t v e in
      let (_, m) = first-some (λ (x : GrantRow). x.id == g.row.grant_id) t.grants g.owner in
      let ended = none-Left t.grants h m (sym g.same_account ∙ mine) in
      absurd (apart (sym (ap is_set g.unrevoked) ∙ ended))
    where
      apart : ¬ (false ≡ true)
      apart e = cc

  abbrev Ended : SessionRow → Type 0
  Ended row = row.account_id ≡ account_id → is_set row.revoked_at ≡ true

  all-Ended : (rows : List SessionRow) → All Ended (revoke_all_as_sessions now account_id rows)
  unfolding revoke_all_as_sessions
  all-Ended rows =
      All-updated Ended (λ r. r.account_id == account_id && not (is_set r.revoked_at)) (revoked now)
        rows (λ row e mine. refl) untouched
    where
      untouched :
          (row : SessionRow)
          → (row.account_id == account_id && not (is_set row.revoked_at)) ≡ false
          → Ended row
      untouched row e mine = ground (arith, text_eq row.account_id account_id, mine)

  no_session :
      (env : Env) (later : ℕ) (token : Text) (o : Option SessionRow) (rows : List SessionRow)
      {s : AsSession}
      → All Ended rows
      → first (live env later token) rows ≡ o
      → session_of later o ≡ some s
      → s.account_id ≢ account_id
  no_session env later token none rows h found e mine = absurd cc
  no_session env later token (some row) rows h found e mine =
      let (alive, m) = first-some (live env later token) rows found in
      let fields = some_inj e in
      let ended = All-at Ended rows h m (ap (λ s. s.account_id) fields ∙ mine) in
      absurd (ground (arith, ended))
    where
      some_inj : {a b : AsSession} → some a ≡ some b → a ≡ b
      some_inj e = cc

  -- After "sign out everywhere" no access token is verified for the account, at any time, whatever
  -- token, audience and scopes are presented.
  pub signed_out-verify :
      (env : Env) (later : ℕ) (audience : String) (token : Text) (required : List Text)
      (s : AccountState) (v : Verified)
      → verify_access_token env later audience
          (some token)
          required
          (sign_out_everywhere now account_id s).tables
        ≡ verified v
      → v.account_id ≢ account_id
  unfolding sign_out_everywhere
  signed_out-verify env later audience token required s v e =
      let gs = select (live_grant_of account_id) s.tables.grants in
      no_token env later audience token required (revoke_each now gs s.tables) v
        (revoke_each-All gs s.tables (select-Left s.tables.grants)) e

  -- After "sign out everywhere" no cookie is accepted as a session of the account.
  pub signed_out-read :
      (env : Env) (later : ℕ) (token : Text) (s : AccountState) (session : AsSession)
      → (read_as_session env later (some token) (sign_out_everywhere now account_id s).sessions).0
        ≡ some session
      → session.account_id ≢ account_id
  unfolding sign_out_everywhere read_as_session
  signed_out-read env later token s session e =
      elim (Bool-cases (well_formed env.crc32 TokenKind.session token)) [
        | inr bad ↦ absurd (ground arith)
        | inl good ↦
            no_session env later token _ (revoke_all_as_sessions now account_id s.sessions)
              (all-Ended s.sessions) refl (rw good at e)
      ]
