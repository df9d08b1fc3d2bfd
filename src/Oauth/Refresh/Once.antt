-- ===== src/Oauth/Refresh/Once.antt =====
-- The row of a refresh token after its rotation.
use mcp_ui.Common.{ℕ, ◌+◌, ◌≡◌, refl, ◌∙◌, false, none, some, ◌∷◌, string_eq, beq_self}
use mcp_ui.Common.Rows.{first}
use mcp_ui.Common.Rows.Laws.{first-update}
use mcp_ui.Normalize.{Text}
use mcp_ui.Tokens.{TokenKind, mint}
use mcp_ui.Oauth.Types.{RefreshRow, GrantRow, Tables, Env, Draws, seconds, hash_of, digest}
use mcp_ui.Oauth.Grants.{issue_tokens}
use mcp_ui.Oauth.Refresh.{locked_row, retire, rotate}

-- The token drawn next is not stored under a digest of the one presented.
abbrev pub Fresh : Env → Draws → Text → Type 0
Fresh env draws token =
    hash_of env token (digest env (mint env.crc32 TokenKind.refresh draws.refresh)) ≡ false

module _ (env : Env) (now : ℕ) (draws : Draws) (token : Text) (row : RefreshRow) (grant : GrantRow)
    (scope : Text) (t : Tables) where
  abbrev pub spent : RefreshRow
  spent = record row {
    replaced_by = some (digest env (mint env.crc32 TokenKind.refresh draws.refresh));
    replaced_at = some now;
  }

  abbrev pub new : RefreshRow
  new = record {
    token_hash = digest env (mint env.crc32 TokenKind.refresh draws.refresh);
    grant_id = row.grant_id;
    audience = row.audience;
    scope = scope;
    expires_at = now + seconds 2592000;
    replaced_by = none;
    replaced_at = none;
    revoked_at = none;
  }

  pub locked_row-rotate :
      locked_row env token t ≡ some row
      → row.replaced_by ≡ none
      → Fresh env draws token
      → locked_row env token (rotate env now draws (some scope) row grant t).1 ≡ some spent
  unfolding locked_row rotate retire issue_tokens first mcp_ui.Tokens.token_digest
  locked_row-rotate at unreplaced fresh =
      first-update _ _ _ (new ∷ t.refresh_tokens) (λ x _. refl)
      ∙ rw (fresh, at) (rw (unreplaced, beq_self row.token_hash) refl)
