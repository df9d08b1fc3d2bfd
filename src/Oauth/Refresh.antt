-- ===== src/Oauth/Refresh.antt =====
-- server/src/oauth/store.ts, `rotateRefresh`. The row lock of its SELECT has no effect here: the
-- calls of a history run one after another.
pub mod Narrowed
pub mod Sound
pub mod Once
pub mod Spent
pub mod History
pub mod Grace
use mcp_ui.Common.{
  ℕ, ◌+◌, String, Bool, true, false, ◌&&◌, ◌||◌, not, Option, none, some, List, [], ◌∷◌, leb, ltb,
  ◌==◌, string_eq, option_eq, list_eq, nat_eq, if◌then◌else◌,
}
use mcp_ui.Common.Rows.{first, any, update}
use mcp_ui.Normalize.{Text, is_space, trim}
use mcp_ui.Tokens.{TokenKind, well_formed, mint}
use mcp_ui.Oauth.Scope.{words, is_blank, includes, join}
use mcp_ui.Oauth.Types.{RefreshRow, GrantRow, Tables, Env, Draws, seconds, is_set, hash_of, digest}
use mcp_ui.Oauth.Grants.{IssuedTokens, issue_tokens, revoke_grant, grant_at}

pub data Reason : Type 0 where
  unknown dead wrong_client : Reason

pub data RefreshOutcome : Type 0 where
  rotated : IssuedTokens → RefreshOutcome
  replay theft : RefreshOutcome
  invalid : Reason → RefreshOutcome
  invalid_target invalid_scope invalid_dpop : RefreshOutcome

pub record RefreshRequest : Type 0 where
  pub client_id : String
  pub resource : Option String
  pub scope : Option Text
  pub grace_seconds : ℕ
  pub presented_jkt : Option String

-- The row of the SELECT, with its grant.
unfoldable pub locked_row : Env → Text → Tables → Option RefreshRow
locked_row env token t =
    first (λ r. hash_of env token r.token_hash && is_set (grant_at t r.grant_id)) t.refresh_tokens

-- `r.replaced_at > now() - make_interval(secs => $2)`
abbrev pub within_grace : ℕ → ℕ → RefreshRow → Bool
within_grace now grace_seconds r = elim r.replaced_at [
  | none ↦ false
  | some at ↦ ltb now (at + seconds grace_seconds)
]

-- The EXISTS on the successor.
abbrev pub successor_used : Tables → RefreshRow → Bool
successor_used t r = elim r.replaced_by [
  | none ↦ false
  | some hash ↦
      any (λ s. s.token_hash == hash && (is_set s.replaced_by || is_set s.revoked_at))
        t.refresh_tokens
]

-- The scope that a refresh asks for: none where it would widen what the token holds.
unfoldable pub narrowed : Option Text → Text → Option Text
narrowed none held = some held
narrowed (some asked) held =
    if trim asked == []
    then some held
    else let requested = words is_space asked in
      if any (λ entry. not (includes (words is_blank held) entry)) requested
      then none
      else some (join requested)

-- The token is retired for its successor.
unfoldable pub retire : Env → ℕ → Draws → RefreshRow → Tables → Tables
retire env now draws row t = record t {
  refresh_tokens =
      update (λ r. r.token_hash == row.token_hash && not (is_set r.replaced_by))
        (λ r. record r {
          replaced_by = some (digest env (mint env.crc32 TokenKind.refresh draws.refresh));
          replaced_at = some now;
        })
        t.refresh_tokens;
}

-- The statements from `issueTokens` on.
unfoldable pub rotate :
    Env → ℕ → Draws → Option Text → RefreshRow → GrantRow → Tables → RefreshOutcome × Tables
rotate env now draws none row grant t = (invalid_scope, t)
rotate env now draws (some scope) row grant t =
    let (issued, t') =
      issue_tokens env now draws row.grant_id row.audience scope true grant.dpop_jkt t in
    (rotated issued, retire env now draws row t')

-- A token that was rotated before.
unfoldable pub presented_again :
    ℕ → RefreshRequest → RefreshRow → GrantRow → Tables → RefreshOutcome × Tables
presented_again now request row grant t =
    if is_set grant.revoked_at
    then (invalid dead, t)
    else (if within_grace now request.grace_seconds row
          && (not (successor_used t row) && grant.client_id == request.client_id)
        then (replay, t)
        else (theft, revoke_grant now row.grant_id t))

-- What the transaction decides of the row and its grant.
unfoldable pub decide :
    Env → ℕ → Draws → RefreshRequest → RefreshRow → GrantRow → Tables → RefreshOutcome × Tables
decide env now draws request row grant t =
    if is_set grant.dpop_jkt && not (grant.dpop_jkt == request.presented_jkt)
    then (invalid_dpop, t)
    else (if is_set row.replaced_by
        then presented_again now request row grant t
        else (if is_set row.revoked_at || (is_set grant.revoked_at || leb row.expires_at now)
            then (invalid dead, t)
            else (if grant.client_id == request.client_id
                then (if is_set request.resource && not (request.resource == some row.audience)
                    then (invalid_target, t)
                    else rotate env now draws (narrowed request.scope row.scope) row grant t)
                else (invalid wrong_client, t))))

-- `rotateRefresh`, up to its `seal`, which runs last before the commit.
unfoldable pub rotate_refresh :
    Env → ℕ → Draws → Option Text → RefreshRequest → Tables → RefreshOutcome × Tables
rotate_refresh env now draws none request t = (invalid unknown, t)
rotate_refresh env now draws (some presented) request t =
    if well_formed env.crc32 TokenKind.refresh presented
    then elim (locked_row env presented t) [
      | none ↦ (invalid unknown, t)
      | some row ↦ elim (grant_at t row.grant_id) [
        | none ↦ (invalid unknown, t)
        | some grant ↦ decide env now draws request row grant t
      ]
    ]
    else (invalid unknown, t)
