-- ===== src/Oauth/Token/Reuse.antt =====
-- The second presentation of a code, at the token endpoint.
use mcp_ui.Common.{
  ℕ, ◌≤◌, ◌≡◌, refl, ap, ◌∙◌, String, Bool, true, false, ◌&&◌, not, Option, some, List, leb, ltb,
  ◌==◌, string_eq, if◌then◌else◌, arith, beq_self,
}
use mcp_ui.Common.Rows.{delete, All}
use mcp_ui.Common.Rows.Laws.{first-none_of, All-update, All-delete, All-at, All-of}
use mcp_ui.Normalize.{Text}
use mcp_ui.Tokens.{TokenKind, well_formed}
use mcp_ui.Oauth.Types.{AccessRow, Tables, Env, Draws, is_set, hash_of}
use mcp_ui.Oauth.Grants.{IssuedTokens, establish_grant, issue_tokens, revoke_grant, grant_live}
use mcp_ui.Oauth.Codes.{consumable, consume_authorization_code}
use mcp_ui.Oauth.Codes.Once.{Unconsumable, consumed-Unconsumable, flagged}
use mcp_ui.Oauth.Verify.{invalid_token, verify_access_token}
use mcp_ui.Oauth.Token.{
  CodeRequest, invalid_grant, tokens, failed, first_party_client_id, exchange_record, redeem,
}
use mcp_ui.Oauth.Token.Replay.{OneRow, Redeemed, tokens-Redeemed, code_after, after, spent}

-- A token that no row is stored under is not verified.
unknown_token :
    (env : Env) (now : ℕ) (audience : String) (token : Text) (required : List Text) (t : Tables)
    → All (λ a. hash_of env token a.token_hash ≡ false) t.access_tokens
    → verify_access_token env now audience (some token) required t ≡ invalid_token
unfolding verify_access_token
unknown_token env now audience token required t h =
    let unlisted =
      All-of
        (λ a.
          (hash_of env token a.token_hash && (ltb now a.expires_at && grant_live t a.grant_id))
          ≡ false)
        t.access_tokens
        (λ a m.
          unstored a (All-at (λ a. hash_of env token a.token_hash ≡ false) t.access_tokens h m)) in
    rw (first-none_of _ t.access_tokens unlisted)
      (either (well_formed env.crc32 TokenKind.access token))
  where
    unstored :
        (a : AccessRow)
        → hash_of env token a.token_hash ≡ false
        → (hash_of env token a.token_hash && (ltb now a.expires_at && grant_live t a.grant_id))
          ≡ false
    unstored a e = ground arith

    either : (b : Bool) → (if b then invalid_token else invalid_token) ≡ invalid_token
    either true = refl
    either false = refl

module _ (env : Env) (now later : ℕ) (draws again : Draws) (given next : CodeRequest)
    (client_id other : String) (jkt key : Option String) (t : Tables) (code : Text)
    (issued : IssuedTokens) where
  module _ (r : Redeemed env now draws given client_id jkt t code issued)
      (one : OneRow env code t.codes) (le : now ≤ later)
      (bound : (other == first_party_client_id && not (is_set key)) ≡ false) where
    abbrev left : Tables
    left = after env now draws given client_id jkt t code issued r one

    left-Unconsumable : Unconsumable env later code left.codes
    unfolding establish_grant issue_tokens
    left-Unconsumable =
        All-update (λ c. consumable env later code c ≡ false) _ _ _ (λ c _ off. off)
          (consumed-Unconsumable env now later code t.codes le)

    consume_again : consume_authorization_code env later (some code) left ≡ (
      some (record {
        row = spent env now draws given client_id jkt t code issued r one;
        already_consumed = true;
        expired = leb r.fresh.expires_at later;
      }),
      left,
    )
    consume_again =
        flagged env code later left left-Unconsumable r.good
        ∙ rw (code_after env now draws given client_id jkt t code issued r one) refl

    redeem_again :
        redeem env later again (record next { code = some code }) other key left
        ≡ (failed invalid_grant, revoke_grant later draws.grant_id left)
    unfolding redeem exchange_record
    redeem_again = rw (bound, consume_again) refl

    token_gone :
        All (λ a. hash_of env issued.access_token a.token_hash ≡ false) t.access_tokens
        → All
            (λ a. hash_of env issued.access_token a.token_hash ≡ false)
            (revoke_grant later draws.grant_id left).access_tokens
    unfolding revoke_grant establish_grant issue_tokens delete
    token_gone new =
        rw (beq_self draws.grant_id)
          (All-delete _ (λ a. a.grant_id == draws.grant_id) t.access_tokens new)

  -- A code that comes again takes with it what its redemption gave. When a request that presents the code has been answered with tokens
  -- and the code comes in another request, no earlier, then the second answer is invalid_grant and
  -- afterwards the access token of the first is not verified, for any audience, scopes and time.
  -- One row at most is stored under the code's digests, no earlier row under those of the issued
  -- access token, and the second request carries a proof if it names the first-party client.
  pub code_reuse_revokes :
      now ≤ later
      → OneRow env code t.codes
      → All (λ a. hash_of env issued.access_token a.token_hash ≡ false) t.access_tokens
      → (other == first_party_client_id && not (is_set key)) ≡ false
      → (redeem env now draws (record given { code = some code }) client_id jkt t).0 ≡ tokens issued
      → let second =
          redeem env later again
            (record next { code = some code })
            other
            key
            (redeem env now draws (record given { code = some code }) client_id jkt t).1 in
        (second.0 ≡ failed invalid_grant)
        × ((time : ℕ) (audience : String) (required : List Text)
            → verify_access_token env time audience (some issued.access_token) required second.1
              ≡ invalid_token)
  code_reuse_revokes le one new bound e =
      let r = tokens-Redeemed env now draws given client_id jkt t code issued e in
      let first_run : (redeem env now draws (record given { code = some code }) client_id jkt t).1
          ≡ left r one le bound =
        ap (λ x. x.1) r.run in
      rw (first_run, redeem_again r one le bound)
        (
          refl,
          λ time audience required.
              unknown_token env time audience issued.access_token required _
                (token_gone r one le bound new),
        )
