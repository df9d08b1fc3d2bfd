-- ===== src/Oauth/Refresh/Grace.antt =====
-- A duplicate of a refresh, within the grace window.
use mcp_ui.Common.{
  ℕ, ◌+◌, ◌<◌, ◌≡◌, refl, String, true, false, ◌&&◌, ◌||◌, not, none, some, List, [], ◌∷◌, ◌==◌,
  string_eq, option_eq, inl, inr, ◌⊎◌, arith, beq_self, text_eq, Memᴰ,
}
use mcp_ui.Common.Rows.{any, update, All}
use mcp_ui.Common.Rows.Laws.{first-some, All-at, All-update}
use mcp_ui.Normalize.{Text}
use mcp_ui.Tokens.{TokenKind, mint, well_formed}
use mcp_ui.Oauth.Types.{RefreshRow, GrantRow, Tables, Env, Draws, seconds, is_set, digest}
use mcp_ui.Oauth.Grants.{IssuedTokens, issue_tokens, revoke_grant, grant_at}
use mcp_ui.Oauth.Refresh.{
  rotated, replay, RefreshRequest, locked_row, successor_used, presented_again, retire, rotate,
  decide, rotate_refresh,
}
use mcp_ui.Oauth.Refresh.Sound.{rotated-Rotation, Rotatable}
use mcp_ui.Oauth.Refresh.Once.{Fresh, locked_row-rotate, spent}

-- No stored row has that digest.
abbrev pub Unused : String → List RefreshRow → Type 0
Unused hash rows = All (λ r. (r.token_hash == hash) ≡ false) rows

any-Unused :
    (hash : String) (rows : List RefreshRow)
    → Unused hash rows
    → any (λ s. s.token_hash == hash && (is_set s.replaced_by || is_set s.revoked_at)) rows ≡ false
unfolding any
any-Unused hash [] h = refl
any-Unused hash (r ∷ rows) h = rw h.0 (any-Unused hash rows h.1)

module _ (env : Env) (now later : ℕ) (draws again : Draws) (token : Text) (request : RefreshRequest)
    (row : RefreshRow) (grant : GrantRow) (scope : Text) (t : Tables) where
  abbrev next : String
  next = digest env (mint env.crc32 TokenKind.refresh draws.refresh)

  abbrev left : Tables
  left = (rotate env now draws (some scope) row grant t).1

  abbrev gone : RefreshRow
  gone = spent env now draws token row grant scope t

  successor_used-left :
      Memᴰ row t.refresh_tokens → Unused next t.refresh_tokens → successor_used left gone ≡ false
  unfolding rotate retire issue_tokens update any
  successor_used-left m h =
      let apart : (row.token_hash == next) ≡ false =
        All-at (λ r. (r.token_hash == next) ≡ false) t.refresh_tokens h m in
      let other : (next == row.token_hash) ≡ false =
        ground (arith, apart, text_eq next row.token_hash, text_eq row.token_hash next) in
      let rest = any-Unused next _ (
        All-update (λ r. (r.token_hash == next) ≡ false)
          (λ r. r.token_hash == row.token_hash && not (is_set r.replaced_by))
          (λ r. record r { replaced_by = some next; replaced_at = some now }) t.refresh_tokens
          (λ r _ e. e) h) in
      rw other (rw (beq_self next) rest)

  again_replay :
      Rotatable now request row grant
      → Memᴰ row t.refresh_tokens
      → Unused next t.refresh_tokens
      → later < now + seconds request.grace_seconds
      → decide env later again request gone grant left ≡ (replay, left)
  unfolding decide presented_again any rotate revoke_grant
  again_replay can m h soon = rw (key_fits can.same_key) (
      rw (can.grant_unrevoked, successor_used-left m h, can.same_client)
        (rw (beq_self request.client_id) (ground (arith, soon))))
    where
      key_fits :
          (grant.dpop_jkt ≡ none) ⊎ (grant.dpop_jkt ≡ request.presented_jkt)
          → (is_set grant.dpop_jkt && not (grant.dpop_jkt == request.presented_jkt)) ≡ false
      key_fits (inl e) = rw e refl
      key_fits (inr e) = rw e (rw (beq_self request.presented_jkt) (ground arith))

  owner_left : grant_at t row.grant_id ≡ some grant → grant_at left row.grant_id ≡ some grant
  unfolding rotate retire issue_tokens
  owner_left e = e

  run_again :
      well_formed env.crc32 TokenKind.refresh token ≡ true
      → locked_row env token left ≡ some gone
      → grant_at left row.grant_id ≡ some grant
      → decide env later again request gone grant left ≡ (replay, left)
      → rotate_refresh env later again (some token) request left ≡ (replay, left)
  unfolding rotate_refresh
  run_again good at owner e = rw (good, at) (rw owner e)

-- The same refresh once more, within the grace window and with no use of the successor between, is
-- recognised as a duplicate: it is neither a rotation nor a theft, and it changes nothing. The
-- token drawn by the rotation does not share a digest with the one presented or with a stored one.
pub duplicate_replays :
    (env : Env) (now later : ℕ) (draws again : Draws) (token : Text) (request : RefreshRequest)
    (t : Tables) (issued : IssuedTokens)
    → Fresh env draws token
    → Unused (digest env (mint env.crc32 TokenKind.refresh draws.refresh)) t.refresh_tokens
    → later < now + seconds request.grace_seconds
    → (rotate_refresh env now draws (some token) request t).0 ≡ rotated issued
    → rotate_refresh env later again
        (some token)
        request
        (rotate_refresh env now draws (some token) request t).1
      ≡ (replay, (rotate_refresh env now draws (some token) request t).1)
unfolding locked_row
duplicate_replays env now later draws again token request t issued fresh unused soon e =
    let r = rotated-Rotation env now draws request t token issued e in
    let (_, m) = rows_of r.row r.at in
    let at =
      locked_row-rotate env now draws token r.row r.grant issued.scope t r.at r.can.unreplaced
        fresh in
    let kept =
      owner_left env now later draws again token request r.row r.grant issued.scope t r.owner in
    let same =
      again_replay env now later draws again token request r.row r.grant issued.scope t r.can m
        unused soon in
    rw r.run (
      run_again env now later draws again token request r.row r.grant issued.scope t r.good at kept
        same)
  where
    rows_of :
        (row : RefreshRow)
        → locked_row env token t ≡ some row
        → Unit {0} × Memᴰ row t.refresh_tokens
    rows_of row at = (tt, (first-some _ t.refresh_tokens at).1)
