-- ===== src/Oauth/Token/Replay.antt =====
-- A code that is presented again takes down the grant that it produced.
use mcp_ui.Common.{
  ℕ, ◌≡◌, ◌≢◌, refl, sym, ap, ◌∙◌, String, true, false, ◌&&◌, ◌||◌, not, Option, none, some, List,
  leb, ◌==◌, string_eq, Bool-cases, Option-cases, inl, inr, arith, Memᴰ,
}
use mcp_ui.Common.Rows.{first, update}
use mcp_ui.Common.Rows.Laws.{first-update, first-some, first-none, All-at}
use mcp_ui.Normalize.{Text}
use mcp_ui.Tokens.{TokenKind, well_formed}
use mcp_ui.Oauth.Types.{CodeRow, Tables, Env, Draws, is_set, hash_of}
use mcp_ui.Oauth.Grants.{IssuedTokens, establish_grant, issue_tokens}
use mcp_ui.Oauth.Codes.{AuthorizationCodeRecord, consumable, consume_authorization_code}
use mcp_ui.Oauth.Codes.Once.{flagged}
use mcp_ui.Oauth.Token.{
  CodeRequest, TokenError, invalid_grant, tokens, failed, first_party_client_id, grant_of,
  check_code, exchange_record, redeem,
}

-- One row at most is stored under the digests of a code: the digest is the table's primary key.
abbrev pub OneRow : Env → Text → List CodeRow → Type 0
OneRow env code rows =
    (c d : CodeRow)
    → Memᴰ c rows
    → Memᴰ d rows
    → hash_of env code c.code_hash ≡ true
    → hash_of env code d.code_hash ≡ true
    → c ≡ d

module _ (env : Env) (now : ℕ) (draws : Draws) (given : CodeRequest) (client_id : String)
    (jkt : Option String) (t : Tables) (code : Text) (issued : IssuedTokens) where
  abbrev pub request : CodeRequest
  request = record given { code = some code }

  abbrev consumed : Tables
  consumed = record t {
    codes = update (consumable env now code) (λ c. record c { consumed_at = some now }) t.codes;
  }

  -- What a redeemed code was, and the tables that it leaves.
  pub record Redeemed : Type 0 where
    pub fresh : CodeRow
    pub good : well_formed env.crc32 TokenKind.code code ≡ true
    pub at : first (consumable env now code) t.codes ≡ some fresh
    pub unwanted : check_code env request client_id jkt fresh ≡ none
    pub run : redeem env now draws request client_id jkt t ≡ (
      tokens (establish_grant env now draws (grant_of env (some code) jkt fresh) consumed).0,
      (establish_grant env now draws (grant_of env (some code) jkt fresh) consumed).1,
    )
    pub answer :
        (establish_grant env now draws (grant_of env (some code) jkt fresh) consumed).0 ≡ issued

  flagged_fails :
      (found : AuthorizationCodeRecord) (t' : Tables)
      → (found.already_consumed || found.expired) ≡ true
      → (exchange_record env now draws request client_id jkt found t').0 ≡ failed invalid_grant
  unfolding exchange_record
  flagged_fails found t' e = ground arith

  missed :
      (miss : CodeRow)
      → consumable env now code miss ≡ false
      → hash_of env code miss.code_hash ≡ true
      → (is_set miss.consumed_at || leb miss.expires_at now) ≡ true
  missed miss off here = ground arith

  abbrev missed_record : CodeRow → AuthorizationCodeRecord
  missed_record miss = record {
    row = miss;
    already_consumed = is_set miss.consumed_at;
    expired = leb miss.expires_at now;
  }

  failed_tokens : {x : TokenError} → failed x ≡ tokens issued → ⊥
  failed_tokens e = cc

  miss_fails :
      (client_id == first_party_client_id && not (is_set jkt)) ≡ false
      → well_formed env.crc32 TokenKind.code code ≡ true
      → first (consumable env now code) t.codes ≡ none
      → (redeem env now draws request client_id jkt t).0 ≢ tokens issued
  unfolding redeem
  miss_fails bound good none' e =
      let un = first-none (consumable env now code) t.codes none' in
      elim (Option-cases (first (λ c. hash_of env code c.code_hash) t.codes)) [
        | inl unknown ↦ failed_tokens (rw (bound, flagged env code now t un good, unknown) at e)
        | inr (miss, found) ↦
            let (here, m) = first-some _ t.codes found in
            let off = All-at (λ c. consumable env now code c ≡ false) t.codes un m in
            failed_tokens (
              sym (flagged_fails (missed_record miss) t (missed miss off here))
              ∙ (rw (bound, flagged env code now t un good, found) at e))
      ]

  pub tokens-Redeemed : (redeem env now draws request client_id jkt t).0 ≡ tokens issued → Redeemed
  unfolding redeem consume_authorization_code exchange_record
  tokens-Redeemed e = elim (Bool-cases (client_id == first_party_client_id && not (is_set jkt))) [
    | inl keyless ↦ absurd (not_tokens (rw keyless at e))
    | inr bound ↦ elim (Bool-cases (well_formed env.crc32 TokenKind.code code)) [
      | inr malformed ↦ absurd (not_tokens (rw (bound, malformed) at e))
      | inl good ↦ elim (Option-cases (first (consumable env now code) t.codes)) [
        | inr (fresh, at) ↦ elim (Option-cases (check_code env request client_id jkt fresh)) [
          | inr (error, wrong) ↦ absurd (not_tokens (rw (bound, good, at, wrong) at e))
          | inl unwanted ↦ record {
            fresh = fresh;
            good = good;
            at = at;
            unwanted = unwanted;
            run = rw (bound, good, at, unwanted) refl;
            answer = tokens_inj (rw (bound, good, at, unwanted) at e);
          }
        ]
        | inl none' ↦ absurd (miss_fails bound good none' e)
      ]
    ]
  ]
    where
      not_tokens : {x : TokenError} {i : IssuedTokens} → failed x ≡ tokens i → ⊥
      not_tokens e = cc

      tokens_inj : {a b : IssuedTokens} → tokens a ≡ tokens b → a ≡ b
      tokens_inj e = cc

  -- The tables after the code was redeemed.
  module _ (r : Redeemed) (one : OneRow env code t.codes) where
    abbrev pub after : Tables
    after = (establish_grant env now draws (grant_of env (some code) jkt r.fresh) consumed).1

    abbrev pub spent : CodeRow
    spent = record r.fresh { consumed_at = some now; grant_id = some draws.grant_id }

    fresh_on : consumable env now code r.fresh ≡ true
    fresh_on = (first-some _ t.codes r.at).0

    fresh_in : Memᴰ r.fresh t.codes
    fresh_in = (first-some _ t.codes r.at).1

    fresh_here : hash_of env code r.fresh.code_hash ≡ true
    fresh_here = here_of r.fresh fresh_on
      where
        here_of :
            (c : CodeRow) → consumable env now code c ≡ true → hash_of env code c.code_hash ≡ true
        here_of c e = ground arith

    code_row : first (λ c. hash_of env code c.code_hash) t.codes ≡ some r.fresh
    code_row = elim (Option-cases (first (λ c. hash_of env code c.code_hash) t.codes)) [
      | inl none' ↦
          let gone =
            All-at (λ c. hash_of env code c.code_hash ≡ false) t.codes (first-none _ t.codes none')
              fresh_in in
          absurd (ground (arith, gone, fresh_here))
      | inr (row, at) ↦
          let (here, m) = first-some _ t.codes at in
          at ∙ ap some (one row r.fresh m fresh_in here fresh_here)
    ]

    pub code_after : first (λ c. hash_of env code c.code_hash) after.codes ≡ some spent
    unfolding establish_grant issue_tokens
    code_after =
        first-update _ _ _ _ (λ x _. refl)
        ∙ rw
            (first-update (consumable env now code) (λ c. hash_of env code c.code_hash)
              (λ c. record c { consumed_at = some now }) t.codes (λ x _. refl))
            (rw code_row (rw (fresh_on, fresh_here) refl))
