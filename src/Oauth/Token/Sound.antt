-- ===== src/Oauth/Token/Sound.antt =====
-- What the token endpoint has checked of a code when it answers with tokens.
use mcp_ui.Common.{
  ℕ, ◌<◌, ◌≡◌, String, true, false, ◌&&◌, not, Option, none, some, ◌==◌, string_eq, option_eq,
  arith, text_eq, Memᴰ,
}
use mcp_ui.Common.Rows.Laws.{first-some}
use mcp_ui.Normalize.{Text}
use mcp_ui.Oauth.Types.{CodeRow, Tables, Env, Draws, is_set, hash_of}
use mcp_ui.Oauth.Grants.{IssuedTokens}
use mcp_ui.Oauth.Codes.{consumable}
use mcp_ui.Oauth.Token.{CodeRequest, tokens, verify_pkce, differs, check_code, redeem}
use mcp_ui.Oauth.Token.Replay.{tokens-Redeemed}

pub record Checked (env : Env) (now : ℕ) (request : CodeRequest) (client_id : String)
    (jkt : Option String) (code : Text) (row : CodeRow) : Type 0 where
  pub known : hash_of env code row.code_hash ≡ true
  pub unconsumed : row.consumed_at ≡ none
  pub unexpired : now < row.expires_at
  pub same_client : client_id ≡ row.client_id
  pub same_redirect : differs request.redirect_uri row.redirect_uri ≡ false
  pub pkce : verify_pkce env request.code_verifier row.code_challenge ≡ true
  pub same_resource : differs request.resource row.resource ≡ false
  pub same_key : (is_set row.dpop_jkt && not (jkt == row.dpop_jkt)) ≡ false

-- The token endpoint answers a code with tokens only where a stored row of the code passes every
-- check: neither consumed nor expired, issued to the client, the redirect URI and the resource
-- those of the authorization wherever the request names them, the PKCE verifier that of the
-- challenge, and the proof's key the one that the code is bound to, if it is bound.
pub tokens-Checked :
    (env : Env) (now : ℕ) (draws : Draws) (request : CodeRequest) (client_id : String)
    (jkt : Option String) (t : Tables) (code : Text) (issued : IssuedTokens)
    → (redeem env now draws (record request { code = some code }) client_id jkt t).0 ≡ tokens issued
    → (row : CodeRow) × Memᴰ row t.codes × Checked env now request client_id jkt code row
unfolding check_code
tokens-Checked env now draws request client_id jkt t code issued e =
    let r = tokens-Redeemed env now draws request client_id jkt t code issued e in
    let (on, m) = first-some _ t.codes r.at in (r.fresh, m, checks r.fresh on r.unwanted)
  where
    checks :
        (row : CodeRow)
        → consumable env now code row ≡ true
        → check_code env (record request { code = some code }) client_id jkt row ≡ none
        → Checked env now request client_id jkt code row
    checks row on e = record {
      known = ground arith;
      unconsumed = ground arith;
      unexpired = ground arith;
      same_client = (text_eq client_id row.client_id).0 (ground arith);
      same_redirect = ground arith;
      pkce = ground arith;
      same_resource = ground arith;
      same_key = ground arith;
    }
