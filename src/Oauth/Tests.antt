-- ===== src/Oauth/Tests.antt =====
-- Concrete runs of the authorization server.
use mcp_ui.Common.{
  ℕ, ◌≡◌, ◌≢◌, refl, sym, ◌∙◌, String, true, false, none, some, List, [], ◌∷◌, arith, nat_eq,
  string_eq, Memᴰ,
}
use mcp_ui.Common.Rows.{first, update, any, every, delete, select}
use mcp_ui.Normalize.{Text}
use mcp_ui.Tokens.{
  TokenKind, mint, well_formed, length, take, drop, starts_with, is_base64url, base62_digit,
  base62_from, checksum, prefix, letters, token_digest, token_digest_candidates,
}
use mcp_ui.Oauth.Scope.{split_words, join}
use mcp_ui.Oauth.Types.{GrantRow, RefreshRow, CodeRow, Tables, Draws, hash_of}
use mcp_ui.Oauth.Grants.{IssuedTokens, issue_tokens, establish_grant, revoke_grant, grant_at}
use mcp_ui.Oauth.Codes.{consume_authorization_code}
use mcp_ui.Oauth.Refresh.{
  RefreshRequest, rotated, rotate_refresh, decide, rotate, locked_row, narrowed,
}
use mcp_ui.Oauth.Refresh.Sound.{rotated-Rotatable, Rotatable, Stored}
use mcp_ui.Oauth.Refresh.Narrowed.{Within}
use mcp_ui.Oauth.Refresh.History.{
  TokenCall, refreshed, grant_revoked, pruned, all_called, OneToken, rotate_once,
}
use mcp_ui.Oauth.Verify.{Verified, verified, invalid_token, verify_access_token, checked}
use mcp_ui.Oauth.Verify.Sound.{Grounds, verified-Grounds}
use mcp_ui.Oauth.Token.{
  CodeRequest, redeem, exchange_record, check_code, verify_pkce, is_unreserved, tokens, failed,
  invalid_grant,
}
use mcp_ui.Oauth.Token.Sound.{Checked, tokens-Checked}
use mcp_ui.Oauth.Token.Reuse.{code_reuse_revokes}
use mcp_ui.Oauth.Refresh.Grace.{Unused}
use mcp_ui.Oauth.Types.{ClientKind, ClientTrust, NewPendingAuthorization, PendingAuthorization}
use mcp_ui.Oauth.Codes.{CodeContext, create_pending_authorization, claim_and_issue_code}
use mcp_ui.Oauth.Codes.Claim.{claim_once}
use mcp_ui.Oauth.Pushed.{PushedRow, store_pushed_request}
use mcp_ui.Oauth.Sealed.{Sealer}
use mcp_ui.Oauth.Exchange.{
  TokenBody, token_body, RefreshTokenRequest, RefreshAnswer, answered, Server, refresh,
}
use mcp_ui.Oauth.Exchange.Duplicate.{duplicate_refresh}
use mcp_ui.Oauth.Prune.{prune_expired_oauth, verify-prune}
use mcp_ui.Oauth.Fixtures.{repeat, env, token_of}
use mcp_ui.Oauth.Usage.{Usage}

abbrev draws : Draws
draws = record { access = repeat 66; refresh = repeat 67; grant_id = "g1" }

abbrev code_row : CodeRow
code_row = record {
  code_hash = "A";
  account_id = "alice";
  client_id = "client";
  redirect_uri = "https://client/cb";
  code_challenge = repeat 97;
  resource = "mcp";
  scope = 114 ∷ 32 ∷ 119 ∷ [];
  offline_access = true;
  auth_time = 0;
  consent_id = none;
  dpop_jkt = none;
  expires_at = 60000;
  consumed_at = none;
  grant_id = none;
}

abbrev start : Tables
start = record {
  grants = [];
  access_tokens = [];
  refresh_tokens = [];
  codes = code_row ∷ [];
  pending = [];
}

abbrev request : CodeRequest
request = record {
  code = some (token_of TokenKind.code 65);
  code_verifier = some (repeat 97);
  redirect_uri = some "https://client/cb";
  client_id = some "client";
  resource = some "mcp";
}

abbrev the_code : Text
the_code = token_of TokenKind.code 65

abbrev first_answer : IssuedTokens
first_answer = (issue_tokens env 1000 draws "g1" "mcp" (114 ∷ 32 ∷ 119 ∷ []) true none start).0

redeemed :
    (redeem env 1000 draws (record request { code = some the_code }) "client" none start).0
    ≡ tokens first_answer
unfolding redeem consume_authorization_code exchange_record check_code verify_pkce is_unreserved
    establish_grant issue_tokens first update any every well_formed mint length take drop
    starts_with is_base64url base62_digit base62_from checksum prefix letters token_digest
    token_digest_candidates hash_of
redeemed = refl

tokens-Checked_example :
    (row : CodeRow) × Memᴰ row start.codes × Checked env 1000 request "client" none the_code row
tokens-Checked_example =
    tokens-Checked env 1000 draws request "client" none start the_code first_answer redeemed

one_row :
    (c d : CodeRow)
    → Memᴰ c start.codes
    → Memᴰ d start.codes
    → hash_of env the_code c.code_hash ≡ true
    → hash_of env the_code d.code_hash ≡ true
    → c ≡ d
one_row c d (Memᴰ.head e) (Memᴰ.head f) h k = e ∙ sym f
one_row c d (Memᴰ.tail m) n h k = elim m [ ]
one_row c d m (Memᴰ.tail n) h k = elim n [ ]

abbrev second : Tables
second =
    (redeem env 2000 draws (record request { code = some the_code }) "client" none
      (redeem env 1000 draws (record request { code = some the_code }) "client" none start).1).1

code_reuse_revokes_example :
    ((redeem env 2000 draws
        (record request { code = some the_code })
        "client"
        none
        (redeem env 1000 draws (record request { code = some the_code }) "client" none start).1).0
      ≡ failed invalid_grant)
    × ((time : ℕ) (audience : String) (required : List Text)
        → verify_access_token env time audience (some first_answer.access_token) required second
          ≡ invalid_token)
code_reuse_revokes_example =
    code_reuse_revokes env 1000 2000 draws draws request request "client" "client" none none start
      the_code first_answer (omega arith) one_row tt refl redeemed

found_again :
    (consume_authorization_code env 2000
      (some the_code)
      (consume_authorization_code env 1000 (some the_code) start).1).0
    ≡ some (record {
      row = record code_row { consumed_at = some 1000 };
      already_consumed = true;
      expired = false;
    })
unfolding consume_authorization_code every well_formed mint length take drop starts_with
    is_base64url base62_digit base62_from checksum prefix letters token_digest
    token_digest_candidates hash_of first update any
found_again = refl

abbrev grant_row : GrantRow
grant_row = record {
  id = "g1";
  account_id = "alice";
  client_id = "client";
  resource = "mcp";
  scope = 114 ∷ 32 ∷ 119 ∷ [];
  dpop_jkt = none;
  revoked_at = none;
}

abbrev granted : Tables
granted =
    (issue_tokens env 1000 draws "g1" "mcp" (114 ∷ 32 ∷ 119 ∷ []) true none
      (record start { grants = grant_row ∷ [] })).1

abbrev access_token : Text
access_token = token_of TokenKind.access 66

abbrev caller : Verified
caller = record {
  account_id = "alice";
  client_id = "client";
  grant_id = "g1";
  scopes = (114 ∷ []) ∷ (119 ∷ []) ∷ [];
  expires_in = 3599;
  cnf_jkt = none;
}

verified_run :
    verify_access_token env 2000 "mcp" (some access_token) ((119 ∷ []) ∷ []) granted
    ≡ verified caller
unfolding verify_access_token checked issue_tokens split_words select every well_formed mint length
    take drop starts_with is_base64url base62_digit base62_from checksum prefix letters token_digest
    token_digest_candidates hash_of first update any
verified_run = refl

verified-Grounds_example : Grounds env 2000 "mcp" access_token ((119 ∷ []) ∷ []) granted caller
verified-Grounds_example =
    verified-Grounds env 2000 "mcp" access_token ((119 ∷ []) ∷ []) granted caller verified_run

-- Another grant is revoked.
still_verified :
    verify_access_token env 2000 "mcp"
      (some access_token)
      ((119 ∷ []) ∷ [])
      (revoke_grant 1500 "g2" granted)
    ≡ verified caller
unfolding revoke_grant delete verify_access_token checked issue_tokens split_words select every
    well_formed mint length take drop starts_with is_base64url base62_digit base62_from checksum
    prefix letters token_digest token_digest_candidates hash_of first update any
still_verified = refl

abbrev next_draws : Draws
next_draws = record { access = repeat 68; refresh = repeat 68; grant_id = "g3" }

abbrev narrower : RefreshRequest
narrower = record {
  client_id = "client";
  resource = none;
  scope = some (119 ∷ []);
  grace_seconds = 30;
  presented_jkt = none;
}

abbrev refresh_token : Text
refresh_token = token_of TokenKind.refresh 67

abbrev rotated_tokens : IssuedTokens
rotated_tokens = (issue_tokens env 5000 next_draws "g1" "mcp" (119 ∷ []) true none granted).0

rotation :
    (rotate_refresh env 5000 next_draws (some refresh_token) narrower granted).0
    ≡ rotated rotated_tokens
unfolding rotate_refresh decide rotate locked_row narrowed mcp_ui.Normalize.trim
    mcp_ui.Normalize.trim_start mcp_ui.Normalize.is_space join issue_tokens split_words every
    well_formed mint length take drop starts_with is_base64url base62_digit base62_from checksum
    prefix letters token_digest token_digest_candidates hash_of first update any
rotation = refl

rotated-Rotatable_example :
    (token : Text) × (row : RefreshRow) × (grant : GrantRow) × (some refresh_token ≡ some token)
    × (locked_row env token granted ≡ some row)
    × (grant_at granted row.grant_id ≡ some grant)
    × Rotatable 5000 narrower row grant
    × Within row.scope rotated_tokens.scope
    × Stored env 5000 row grant rotated_tokens granted
        (rotate_refresh env 5000 next_draws (some refresh_token) narrower granted).1
rotated-Rotatable_example =
    rotated-Rotatable env 5000 next_draws narrower granted (some refresh_token) rotated_tokens
      rotation

one_token : OneToken env refresh_token granted.refresh_tokens
unfolding issue_tokens
one_token r s (Memᴰ.head e) (Memᴰ.head f) h k = e ∙ sym f
one_token r s (Memᴰ.head e) (Memᴰ.tail m) h k = elim m [ ]
one_token r s (Memᴰ.tail m) n h k = elim m [ ]

-- The token is presented again in time, and another grant is revoked.
abbrev since : List TokenCall
since =
    refreshed 6000 next_draws (some refresh_token) narrower
    ∷ grant_revoked 6500 "g2"
    ∷ pruned 7000
    ∷ []

rotate_once_example :
    (rotate_refresh env 8000 draws (some refresh_token) narrower (
      all_called env
        (rotate_refresh env 5000 next_draws (some refresh_token) narrower granted).1
        since)).0
    ≢ rotated rotated_tokens
unfolding every well_formed mint length take drop starts_with is_base64url base62_digit base62_from
    checksum prefix letters token_digest token_digest_candidates hash_of first update any
rotate_once_example =
    rotate_once env 5000 8000 next_draws draws refresh_token narrower narrower granted
      rotated_tokens rotated_tokens since one_token refl (refl, (tt, (tt, tt))) rotation

abbrev no_cipher : Sealer TokenBody TokenBody
no_cipher = record { close = λ _ body. body; open' = λ _ box. some box }

abbrev asking : RefreshTokenRequest
asking = record {
  refresh_token = some refresh_token;
  client_id = some "client";
  resource = none;
  scope = some (119 ∷ []);
}

abbrev server : Server TokenBody
server = record { tables = granted; sealed = [] }

abbrev once : RefreshAnswer × Server TokenBody
once = refresh no_cipher env 5000 next_draws asking "client" none server

nothing_drawn : Unused "D" granted.refresh_tokens
unfolding issue_tokens every well_formed mint length take drop starts_with is_base64url base62_digit
    base62_from checksum prefix letters token_digest token_digest_candidates hash_of first update
    any
nothing_drawn = (refl, tt)

duplicate_refresh_example :
    (once.0 ≡ answered (token_body rotated_tokens))
    × (refresh no_cipher env 6000 draws asking "client" none once.1 ≡ once)
unfolding mint drop prefix letters token_digest token_digest_candidates hash_of any
duplicate_refresh_example =
    duplicate_refresh no_cipher (λ _ _. refl) env 5000 6000 next_draws draws asking refresh_token
      "client" none server rotated_tokens refl nothing_drawn (omega arith) rotation

abbrev pushed : List PushedRow
pushed = (store_pushed_request 10 "par_1" "client" (123 ∷ 125 ∷ []) []).1

abbrev flight : NewPendingAuthorization
flight = record {
  client_id = "client";
  client_host = "client";
  client_kind = ClientKind.dcr;
  client_trust = ClientTrust.unverified;
  document_digest = none;
  redirect_uri = "https://client/cb";
  state = none;
  code_challenge = repeat 97;
  resource = "mcp";
  scopes = (114 ∷ []) ∷ [];
  offline_access = true;
  dpop_jkt = none;
  first_party = false;
}

abbrev in_flight : Tables
in_flight = (create_pending_authorization env 0 "pa_1" flight (repeat 98) start).1

abbrev pending : PendingAuthorization
pending = record { id = "pa_1"; binding_digest = "D"; request = flight }

abbrev context : CodeContext
context = record { auth_time = 5; consent_id = none }

claim_once_example :
    claim_and_issue_code env 20
      (repeat 66)
      "alice"
      pending
      context
      (claim_and_issue_code env 10 (repeat 65) "alice" pending context in_flight).1
    ≡ (none, (claim_and_issue_code env 10 (repeat 65) "alice" pending context in_flight).1)
claim_once_example =
    claim_once env 10 20 (repeat 65) (repeat 66) "alice" "alice" pending context context in_flight

verify-prune_example :
    verify_access_token env 2500 "mcp"
      (some access_token)
      []
      (prune_expired_oauth 2000 granted pushed).0
    ≡ verify_access_token env 2500 "mcp" (some access_token) [] granted
verify-prune_example = verify-prune env 2000 2500 "mcp" (some access_token) [] granted pushed refl

abbrev unused_grant : Usage
unused_grant = record {
  last_touched = [];
  rows = record { grant_id = "g1"; last_used_at = none } ∷ [];
}
