-- ===== src/Oauth/Session/Tests.antt =====
-- Concrete runs of the browser sessions.
use mcp_ui.Common.{ℕ, ◌+◌, ◌<◌, ◌≡◌, refl, true, false, none, some, List, [], ◌∷◌, nat_eq}
use mcp_ui.Common.Rows.{first, any, every, update}
use mcp_ui.Normalize.{Text}
use mcp_ui.Tokens.{
  TokenKind, mint, well_formed, length, take, drop, starts_with, is_base64url, base62_digit,
  base62_from, checksum, prefix, letters, token_digest, token_digest_candidates,
}
use mcp_ui.Oauth.Fixtures.{repeat, env, token_of}
use mcp_ui.Oauth.Types.{seconds, hash_of}
use mcp_ui.Oauth.Session.{AsSession, start_as_session, read_as_session, revoke_as_session}
use mcp_ui.Oauth.Session.Windows.{SessionCall, start, read, step, run, session_bounded}
use mcp_ui.Oauth.Session.Ends.{revoked_unread}

abbrev token : Text
token = token_of TokenKind.session 66

-- A sign-in, and a visit after twenty minutes.
abbrev calls : List (ℕ × SessionCall)
calls = (1000, start (repeat 66) "alice" "pwd") ∷ (1201000, read (some token)) ∷ []

abbrev session : AsSession
session = record { account_id = "alice"; auth_time = 1000; auth_age_seconds = 2400; acr = "pwd" }

kept_alive : (read_as_session env 2401000 (some token) (run env calls [])).0 ≡ some session
unfolding run step start_as_session read_as_session first any every update well_formed mint length
    take drop starts_with is_base64url base62_digit base62_from checksum prefix letters token_digest
    token_digest_candidates hash_of
kept_alive = refl

session_bounded_example : 2401000 < 1000 + seconds 43200
session_bounded_example = session_bounded env calls 2401000 (some token) kept_alive

token_good : well_formed env.crc32 TokenKind.session token ≡ true
unfolding every well_formed mint length take drop starts_with is_base64url base62_digit base62_from
    checksum prefix letters
token_good = refl

other_drawn :
    hash_of env token (token_digest env.hmac env.peppers (token_of TokenKind.session 67)) ≡ false
unfolding any mint drop prefix letters token_digest token_digest_candidates hash_of base62_from
    base62_digit checksum
other_drawn = refl

revoked_unread_example :
    (read_as_session env 3000 (some token) (
      run env
        ((2500, start (repeat 67) "alice" "pwd") ∷ [])
        (revoke_as_session env 2000 (some token) (run env calls [])))).0
    ≡ none
revoked_unread_example =
    revoked_unread env token 2000 3000 (run env calls [])
      ((2500, start (repeat 67) "alice" "pwd") ∷ []) token_good (other_drawn, tt)
