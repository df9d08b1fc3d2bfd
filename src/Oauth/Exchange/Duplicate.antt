-- ===== src/Oauth/Exchange/Duplicate.antt =====
-- A duplicate of a refresh is answered with what the first one received.
use mcp_ui.Common.{
  ℕ, ◌+◌, ◌<◌, ◌≡◌, refl, ap, ◌∙◌, String, Option, some, leb, string_eq, arith, beq_self,
}
use mcp_ui.Common.Dict.{Dict, get, sweep, get-put}
use mcp_ui.Normalize.{Text}
use mcp_ui.Tokens.{TokenKind, mint}
use mcp_ui.Oauth.Types.{Env, Draws, seconds, digest}
use mcp_ui.Oauth.Grants.{IssuedTokens}
use mcp_ui.Oauth.Refresh.{rotated, rotate_refresh}
use mcp_ui.Oauth.Refresh.Once.{Fresh}
use mcp_ui.Oauth.Refresh.Grace.{Unused, duplicate_replays}
use mcp_ui.Oauth.Sealed.{Sealer, Entry, Opens, seal, opened, unseal}
use mcp_ui.Oauth.Exchange.{
  TokenBody, token_body, RefreshTokenRequest, answered, Server, seal_key, rotation_of, copied,
  answer_outcome, answer_run, refresh,
}

module _ {Box : Type 0} (sealer : Sealer TokenBody Box) (opens : Opens sealer) where
  -- A body that was sealed is there until its time is over.
  unseal-seal :
      (now later : ℕ) (key : String) (body : TokenBody) (ttl : ℕ) (entries : Dict (Entry Box))
      → later < now + seconds ttl
      → unseal sealer later key (seal sealer now key body ttl entries)
        ≡ (some body, seal sealer now key body ttl entries)
  unfolding seal unseal
  unseal-seal now later key body ttl entries soon =
      let entry : Entry Box = record {
        sealed = sealer.close key body;
        expires_at = now + seconds ttl;
      } in
      let there : get key (seal sealer now key body ttl entries) ≡ some entry =
        get-put key key entry (sweep (λ e. leb e.expires_at now) entries)
        ∙ rw (beq_self key) refl in
      ap (opened sealer later key (seal sealer now key body ttl entries)) there
      ∙ rw (opens key body) (ground arith)

  module _ (env : Env) (now later : ℕ) (draws again : Draws) (request : RefreshTokenRequest)
      (token : Text) (client_id : String) (jkt : Option String) (s : Server Box)
      (issued : IssuedTokens) where
    abbrev asked : RefreshTokenRequest
    asked = record request { refresh_token = some token }

    abbrev key : String
    key = seal_key env client_id (some token)

    abbrev left : Server Box
    left = record {
      tables =
          (rotate_refresh env now draws (some token) (rotation_of env asked client_id jkt)
            s.tables).1;
      sealed = seal sealer now key (token_body issued) env.refresh_grace_seconds s.sealed;
    }

    -- A refresh that is sent once more within the grace window, by the same client with the same
    -- parameters and key, gets exactly the body that the first one received, and changes nothing.
    -- The first one rotated; the token that it drew does not share a digest with the one presented
    -- or with a stored one; and what was sealed under a key opens under it.
    pub duplicate_refresh :
        Fresh env draws token
        → Unused
            (digest env (mint env.crc32 TokenKind.refresh draws.refresh))
            s.tables.refresh_tokens
        → later < now + seconds env.refresh_grace_seconds
        → (rotate_refresh env now draws
            (some token)
            (rotation_of env asked client_id jkt)
            s.tables).0
          ≡ rotated issued
        → let first = refresh sealer env now draws asked client_id jkt s in
          (first.0 ≡ answered (token_body issued))
          × (refresh sealer env later again asked client_id jkt first.1 ≡ first)
    unfolding refresh answer_outcome
    duplicate_refresh fresh unused soon e =
        let duplicate =
          duplicate_replays env now later draws again token (rotation_of env asked client_id jkt)
            s.tables issued fresh unused soon e in
        let kept =
          unseal-seal now later key (token_body issued) env.refresh_grace_seconds s.sealed soon in
        let once : refresh sealer env now draws asked client_id jkt s
            ≡ (answered (token_body issued), left) =
          ap (λ o. answer_outcome sealer env now key o (record s { tables = left.tables })) e in
        rw once (
          refl,
          ap (λ x. answer_run sealer env later key x left) duplicate
              ∙ ap (λ u. (copied sealer env u.0, record left { sealed = u.1 })) kept,
        )
