-- ===== src/Oauth/Refresh/History.antt =====
-- A refresh token rotates at most once, over any history of the operations of server/src/oauth that
-- write refresh tokens: rotations, redeemed codes, revocations and pruning.
use mcp_ui.Common.{
  ℕ, ◌≡◌, ◌≢◌, refl, sym, ◌∙◌, subst, String, true, false, ◌&&◌, not, Option, none, some, List, [],
  ◌∷◌, ◌==◌, string_eq, option_eq, Bool-cases, inl, inr, arith, beq_self, Memᴰ,
}
use mcp_ui.Common.Rows.{All}
use mcp_ui.Common.Rows.Laws.{first-some, All-at, All-of, All-across, All-delete}
use mcp_ui.Normalize.{Text}
use mcp_ui.Oauth.Types.{RefreshRow, GrantRow, Tables, Env, Draws, is_set, hash_of}
use mcp_ui.Oauth.Grants.{IssuedTokens, issue_tokens, revoke_grant, grant_at}
use mcp_ui.Oauth.Prune.{prune_expired_oauth}
use mcp_ui.Oauth.Refresh.{rotated, RefreshRequest, locked_row, retire, rotate, rotate_refresh}
use mcp_ui.Oauth.Refresh.Sound.{rotated-Rotation}
use mcp_ui.Oauth.Refresh.Once.{Fresh}
use mcp_ui.Oauth.Token.{CodeRequest, Proof, exchange_code}
use mcp_ui.Oauth.Refresh.Spent.{
  IsSpent, AllSpent, revoked-AllSpent, refresh-AllSpent, code-AllSpent,
}

pub data TokenCall : Type 0 where
  refreshed : ℕ → Draws → Option Text → RefreshRequest → TokenCall
  redeemed : ℕ → Draws → CodeRequest → Proof → TokenCall
  grant_revoked : ℕ → String → TokenCall
  pruned : ℕ → TokenCall

unfoldable pub called : Env → Tables → TokenCall → Tables
called env t (refreshed now draws presented request) =
    (rotate_refresh env now draws presented request t).1
called env t (redeemed now draws request proof) = (exchange_code env now draws request proof t).1
called env t (grant_revoked now grant_id) = revoke_grant now grant_id t
called env t (pruned now) = (prune_expired_oauth now t []).0

unfoldable pub all_called : Env → Tables → List TokenCall → Tables
all_called env t [] = t
all_called env t (c ∷ cs) = all_called env (called env t c) cs

-- The tokens that a call draws are not stored under a digest of the one presented.
abbrev pub FreshCall : Env → Text → TokenCall → Type 0
FreshCall env token (refreshed now draws presented request) = Fresh env draws token
FreshCall env token (redeemed now draws request proof) = Fresh env draws token
FreshCall env token (grant_revoked now grant_id) = Unit
FreshCall env token (pruned now) = Unit

-- One row at most is stored under the digests of a token: the digest is the table's primary key.
abbrev pub OneToken : Env → Text → List RefreshRow → Type 0
OneToken env token rows =
    (r s : RefreshRow)
    → Memᴰ r rows
    → Memᴰ s rows
    → hash_of env token r.token_hash ≡ true
    → hash_of env token s.token_hash ≡ true
    → r ≡ s

module _ (env : Env) (token : Text) where
  called-AllSpent :
      (c : TokenCall) (t : Tables)
      → FreshCall env token c
      → AllSpent env token t
      → AllSpent env token (called env t c)
  unfolding called prune_expired_oauth
  called-AllSpent (refreshed now draws presented request) t fresh h =
      refresh-AllSpent env token now draws fresh presented request t h
  called-AllSpent (redeemed now draws request proof) t fresh h =
      code-AllSpent env token now draws fresh request proof t h
  called-AllSpent (grant_revoked now grant_id) t fresh h =
      revoked-AllSpent env token now grant_id t h
  called-AllSpent (pruned now) t fresh h = All-delete (IsSpent env token) _ t.refresh_tokens h

  all_called-AllSpent :
      (calls : List TokenCall) (t : Tables)
      → All (FreshCall env token) calls
      → AllSpent env token t
      → AllSpent env token (all_called env t calls)
  unfolding all_called
  all_called-AllSpent [] t fresh h = h
  all_called-AllSpent (c ∷ calls) t fresh h =
      all_called-AllSpent calls (called env t c) fresh.1 (called-AllSpent c t fresh.0 h)

  -- After the rotation of its one row, every row of the token is spent.
  rotated-AllSpent :
      (now : ℕ) (draws : Draws) (scope : Text) (row : RefreshRow) (grant : GrantRow) (t : Tables)
      → Fresh env draws token
      → OneToken env token t.refresh_tokens
      → locked_row env token t ≡ some row
      → row.replaced_by ≡ none
      → AllSpent env token (rotate env now draws (some scope) row grant t).1
  unfolding rotate retire issue_tokens locked_row
  rotated-AllSpent now draws scope row grant t fresh one at unreplaced =
      All-across IsRow (IsSpent env token) _ _ _ (λ r hit _. ground arith) missed
        ((λ off. absurd (clash (sym fresh ∙ off))), All-of IsRow t.refresh_tokens its_row)
    where
      clash : ¬ (false ≡ true)
      clash e = cc

      IsRow : RefreshRow → Type 0
      IsRow r = hash_of env token r.token_hash ≡ true → r ≡ row

      found :
          ((hash_of env token row.token_hash && is_set (grant_at t row.grant_id)) ≡ true)
          × Memᴰ row t.refresh_tokens
      found = first-some _ t.refresh_tokens at

      its_row : (r : RefreshRow) → Memᴰ r t.refresh_tokens → IsRow r
      its_row r m e = let stored_hash = found.0 in one r row m found.1 e (ground arith)

      missed :
          (r : RefreshRow)
          → (r.token_hash == row.token_hash && not (is_set r.replaced_by)) ≡ false
          → IsRow r
          → IsSpent env token r
      missed r off is_row = elim (Bool-cases (hash_of env token r.token_hash)) [
        | inr other ↦ rw other refl
        | inl here ↦ absurd (
            clash (
              sym off
              ∙ subst (λ x. (x.token_hash == row.token_hash && not (is_set x.replaced_by)) ≡ true)
                  (sym (is_row here)) (rw (beq_self row.token_hash, unreplaced) refl)))
      ]

-- A refresh token that was rotated does not rotate again: after any history of refreshes, code
-- exchanges, revocations and prunings, whatever is asked, at whatever time, presenting it once more
-- gives no new tokens. One row at most is stored under the token's digests, and the tokens drawn by
-- the first rotation and by the history do not share a digest with it.
pub rotate_once :
    (env : Env) (now later : ℕ) (draws again : Draws) (token : Text) (request next : RefreshRequest)
    (t : Tables) (issued issued' : IssuedTokens) (calls : List TokenCall)
    → OneToken env token t.refresh_tokens
    → Fresh env draws token
    → All (FreshCall env token) calls
    → (rotate_refresh env now draws (some token) request t).0 ≡ rotated issued
    → (rotate_refresh env later again
        (some token)
        next
        (all_called env (rotate_refresh env now draws (some token) request t).1 calls)).0
      ≢ rotated issued'
unfolding locked_row
rotate_once env now later draws again token request next t issued issued' calls one fresh drawn e
      second =
    let r = rotated-Rotation env now draws request t token issued e in
    let left =
      subst (λ x. AllSpent env token x.1) (sym r.run)
        (rotated-AllSpent env token now draws issued.scope r.row r.grant t fresh one r.at
          r.can.unreplaced) in
    let spent = all_called-AllSpent env token calls _ drawn left in
    let s = rotated-Rotation env later again next _ token issued' second in
    let (here, m) = first-some _ _ s.at in
    let used = All-at (IsSpent env token) _ spent m in
    let unreplaced = s.can.unreplaced in ground arith
