-- ===== src/Oauth/Session/Ends.antt =====
-- server/src/oauth/session.ts: a session begins with a sign-in and ends when it is revoked.
use mcp_ui.Common.{
  ℕ, ◌+◌, ◌-◌, ◌/◌, ◌<◌, ◌≡◌, refl, sym, ap, String, Bool, true, false, ◌&&◌, not, inl, inr, Option,
  none, some, List, [], ◌∷◌, string_eq, arith, Bool-cases, beq_self, subst, if◌then◌else◌,
}
use mcp_ui.Common.Rows.{any, first, every, update, All}
use mcp_ui.Common.Rows.Laws.{All-updated, All-update, All-of, All-at, first-none_of}
use mcp_ui.Normalize.{Text}
use mcp_ui.Tokens.{
  TokenKind, mint, length, is_base64url, well_formed, token_digest, token_digest_candidates,
}
use mcp_ui.Tokens.Kinds.{well_formed-mint}
use mcp_ui.Oauth.Types.{Env, seconds, is_set, hash_of, digest}
use mcp_ui.Oauth.Session.{
  SessionRow, AsSession, as_session_idle_seconds, new_session, start_as_session, live, extended,
  session_of, read_as_session, revoked, revoke_as_session, revoke_all_as_sessions,
}
use mcp_ui.Oauth.Session.Windows.{SessionCall, start, read, revoke, revoke_all, step, run, either}

-- A token is found under the digest that it is stored with.
pub hash_of-digest : (env : Env) (token : Text) → hash_of env token (digest env token) ≡ true
unfolding hash_of token_digest_candidates token_digest any
hash_of-digest env token = rw (beq_self (env.hmac env.peppers.current token)) refl

first-here :
    (p : SessionRow → Bool) (r : SessionRow) (t : List SessionRow)
    → p r ≡ true
    → first p (r ∷ t) ≡ some r
unfolding first
first-here p r t e = rw e refl

-- The cookie of a sign-in is accepted for its person for half an hour, with the time and the way of
-- the sign-in. The body of its token is 43 base64url characters.
pub read-start_as_session :
    (env : Env) (now later : ℕ) (random : Text) (account_id acr : String) (rows : List SessionRow)
    → length random ≡ 43
    → every is_base64url random ≡ true
    → later < now + seconds as_session_idle_seconds
    → let (token, rows') = start_as_session env now random account_id acr rows in
      (read_as_session env later (some token) rows').0
      ≡ some (record {
        account_id = account_id;
        auth_time = now;
        auth_age_seconds = (later - now + 500) / 1000;
        acr = acr;
      })
unfolding start_as_session read_as_session
read-start_as_session env now later random account_id acr rows long good soon =
    let token = mint env.crc32 TokenKind.session random in
    let row = new_session env now token account_id acr in
    let on : live env later token row ≡ true = rw (hash_of-digest env token) (ground arith) in
    rw (well_formed-mint env.crc32 TokenKind.session random long good)
      (ap (session_of later) (first-here (live env later token) row rows on))

-- No row that the token is stored under is still in use.
abbrev pub IsSpent : Env → Text → SessionRow → Type 0
IsSpent env token row = hash_of env token row.id_hash ≡ true → is_set row.revoked_at ≡ true

-- The call does not begin a session with a token of that digest.
abbrev pub DrawsAnother : Env → Text → SessionCall → Type 0
DrawsAnother env token (start random account_id acr) =
    hash_of env token (digest env (mint env.crc32 TokenKind.session random)) ≡ false
DrawsAnother env token _ = Unit

module _ (env : Env) (token : Text) where
  revoke-IsSpent :
      (now : ℕ) (rows : List SessionRow)
      → well_formed env.crc32 TokenKind.session token ≡ true
      → All (IsSpent env token) (revoke_as_session env now (some token) rows)
  unfolding revoke_as_session
  revoke-IsSpent now rows good =
      subst
        (λ b. All (IsSpent env token) (
          if b
          then update (λ r. hash_of env token r.id_hash && not (is_set r.revoked_at)) (revoked now)
              rows
          else rows))
        (sym good)
        (All-updated (IsSpent env token) _ (revoked now) rows (λ row e h. refl)
          (λ row e h. ground arith))

  keep : (now : ℕ) (row : SessionRow) → IsSpent env token row → IsSpent env token (revoked now row)
  keep now row h e = refl

  step-IsSpent :
      (now : ℕ) (call : SessionCall) (rows : List SessionRow)
      → DrawsAnother env token call
      → All (IsSpent env token) rows
      → All (IsSpent env token) (step env now call rows)
  unfolding step start_as_session read_as_session revoke_as_session revoke_all_as_sessions
  step-IsSpent now (start random account_id acr) rows other h = ((λ e. absurd (ground arith)), h)
  step-IsSpent now (read none) rows other h = h
  step-IsSpent now (read (some t)) rows other h =
      either (λ (r : Option AsSession × List SessionRow). All (IsSpent env token) r.1)
        (well_formed env.crc32 TokenKind.session t)
        (All-update (IsSpent env token) (live env now t) (extended now) rows (λ row _ k. k) h) h
  step-IsSpent now (revoke none) rows other h = h
  step-IsSpent now (revoke (some t)) rows other h =
      either (All (IsSpent env token)) (well_formed env.crc32 TokenKind.session t)
        (All-update (IsSpent env token) _ (revoked now) rows (λ row _ k. keep now row k) h) h
  step-IsSpent now (revoke_all account_id) rows other h =
      All-update (IsSpent env token) _ (revoked now) rows (λ row _ k. keep now row k) h

  run-IsSpent :
      (calls : List (ℕ × SessionCall)) (rows : List SessionRow)
      → All (λ c. DrawsAnother env token c.1) calls
      → All (IsSpent env token) rows
      → All (IsSpent env token) (run env calls rows)
  unfolding run
  run-IsSpent [] rows other h = h
  run-IsSpent ((now, call) ∷ calls) rows other h =
      run-IsSpent calls (step env now call rows) other.1 (step-IsSpent now call rows other.0 h)

  -- A session that was revoked is not accepted again at any time, whatever sessions are begun, read
  -- and revoked in between, as long as none is begun with a token of the same digest.
  pub revoked_unread :
      (now later : ℕ) (rows : List SessionRow) (calls : List (ℕ × SessionCall))
      → well_formed env.crc32 TokenKind.session token ≡ true
      → All (λ c. DrawsAnother env token c.1) calls
      → (read_as_session env later
          (some token)
          (run env calls (revoke_as_session env now (some token) rows))).0
        ≡ none
  unfolding read_as_session
  revoked_unread now later rows calls good other =
      let after = run env calls (revoke_as_session env now (some token) rows) in
      let spent =
        run-IsSpent calls (revoke_as_session env now (some token) rows) other
          (revoke-IsSpent now rows good) in
      rw good (
        ap (session_of later) (
          first-none_of (live env later token) after (
            All-of (λ r. live env later token r ≡ false) after
              (λ r m. dead r (All-at (IsSpent env token) after spent m)))))
    where
      dead : (r : SessionRow) → IsSpent env token r → live env later token r ≡ false
      dead r h = elim (Bool-cases (hash_of env token r.id_hash)) [
        | inl e ↦ rw (e, h e) refl
        | inr e ↦ rw e refl
      ]
