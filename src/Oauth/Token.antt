-- ===== src/Oauth/Token.antt =====
-- server/src/oauth/token.ts: the token endpoint, with `verifyPkce` of oauth/crypto.ts. A request's
-- fields are given where they are strings, and its DPoP proof as `proofOf` has judged it. In the
-- answers a code stands for the HTTP body that carries it.
pub mod Replay
pub mod Reuse
pub mod Sound
use mcp_ui.Common.{
  ℕ, ◌+◌, String, Bool, true, false, ◌&&◌, ◌||◌, not, Option, none, some, List, [], ◌∷◌, leb, ltb,
  ◌==◌, string_eq, option_eq, list_eq, nat_eq, if◌then◌else◌,
}
use mcp_ui.Common.Rows.{every}
use mcp_ui.Normalize.{Text}
use mcp_ui.Tokens.{length}
use mcp_ui.Oauth.Types.{CodeRow, Tables, Env, Draws, is_set}
use mcp_ui.Oauth.Grants.{IssuedTokens, NewGrant, establish_grant, revoke_grant}
use mcp_ui.Oauth.Codes.{AuthorizationCodeRecord, consume_authorization_code}

-- `[A-Za-z0-9\-._~]`
unfoldable pub is_unreserved : ℕ → Bool
is_unreserved c =
    (leb 65 c && leb c 90)
    || (leb 97 c && leb c 122)
    || (leb 48 c && leb c 57)
    || c == 45
    || c == 46
    || c == 95
    || c == 126

-- `verifyPkce`; equal digests have equal lengths.
unfoldable pub verify_pkce : Env → Option Text → Text → Bool
verify_pkce env none challenge = false
verify_pkce env (some verifier) challenge =
    if leb 43 (length verifier) && leb (length verifier) 128
    then (if every is_unreserved verifier
        then env.sha256_base64url verifier == challenge
        else false)
    else false

-- What `proofOf` gives: no proof, the thumbprint of a proof's key, or a refusal.
pub data Proof : Type 0 where
  absent refused : Proof
  proven : String → Proof

abbrev pub jkt_of : Proof → Option String
jkt_of (proven jkt) = some jkt
jkt_of _ = none

pub record CodeRequest : Type 0 where
  pub code : Option Text
  pub code_verifier : Option Text
  pub redirect_uri : Option String
  pub client_id : Option String
  pub resource : Option String

pub data TokenError : Type 0 where
  invalid_request invalid_grant invalid_target invalid_scope invalid_dpop_proof : TokenError

pub data Answer : Type 0 where
  tokens : IssuedTokens → Answer
  failed : TokenError → Answer

abbrev pub first_party_client_id : String
first_party_client_id = "iot-switch-ios"

-- `typeof value === 'string' && value !== expected`, and its like with `undefined`.
abbrev pub differs : Option String → String → Bool
differs none expected = false
differs (some value) expected = not (value == expected)

abbrev pub grant_of : Env → Option Text → Option String → CodeRow → NewGrant
grant_of env code jkt record' = record {
  code = elim code [ none ↦ [] | some c ↦ c ];
  account_id = record'.account_id;
  client_id = record'.client_id;
  resource = record'.resource;
  scope = record'.scope;
  with_refresh = not env.refresh_requires_offline_access || record'.offline_access;
  dpop_jkt = jkt;
}

-- The checks of a fresh code, in the order of `exchangeCode`.
unfoldable pub check_code : Env → CodeRequest → String → Option String → CodeRow → Option TokenError
check_code env request client_id jkt row =
    if client_id == row.client_id
    then (if differs request.redirect_uri row.redirect_uri
        then some invalid_grant
        else (if verify_pkce env request.code_verifier row.code_challenge
            then (if differs request.resource row.resource
                then some invalid_target
                else (if is_set row.dpop_jkt && not (jkt == row.dpop_jkt)
                    then some invalid_dpop_proof
                    else none))
            else some invalid_grant))
    else some invalid_grant

-- `exchangeCode` from the consumed code on.
unfoldable pub exchange_record :
    Env
    → ℕ
    → Draws
    → CodeRequest
    → String
    → Option String
    → AuthorizationCodeRecord
    → Tables
    → Answer × Tables
exchange_record env now draws request client_id jkt found t =
    if found.already_consumed
    then (
      failed invalid_grant,
      elim found.row.grant_id [ none ↦ t | some grant_id ↦ revoke_grant now grant_id t ],
    )
    else (if found.expired
        then (failed invalid_grant, t)
        else elim (check_code env request client_id jkt found.row) [
          | some error ↦ (failed error, t)
          | none ↦
              (let (issued, t') =
                  establish_grant env now draws (grant_of env request.code jkt found.row) t in
                (tokens issued, t'))
        ])

-- `exchangeCode` on what consuming the code gave.
abbrev pub exchange_found :
    Env
    → ℕ
    → Draws
    → CodeRequest
    → String
    → Option String
    → Option AuthorizationCodeRecord × Tables
    → Answer × Tables
exchange_found env now draws request client_id jkt (none, t) = (failed invalid_grant, t)
exchange_found env now draws request client_id jkt (some found, t) =
    exchange_record env now draws request client_id jkt found t

-- `exchangeCode` once the client and its proof are known.
unfoldable pub redeem :
    Env → ℕ → Draws → CodeRequest → String → Option String → Tables → Answer × Tables
redeem env now draws request client_id jkt t =
    if client_id == first_party_client_id && not (is_set jkt)
    then (failed invalid_dpop_proof, t)
    else exchange_found env now draws request client_id jkt
        (consume_authorization_code env now request.code t)

-- `exchangeCode`
unfoldable pub exchange_code : Env → ℕ → Draws → CodeRequest → Proof → Tables → Answer × Tables
exchange_code env now draws request proof t = elim request.client_id [
  | none ↦ (failed invalid_request, t)
  | some client_id ↦ if client_id == "" then (failed invalid_request, t) else elim proof [
    | refused ↦ (failed invalid_dpop_proof, t)
    | absent ↦ redeem env now draws request client_id none t
    | proven jkt ↦ redeem env now draws request client_id (some jkt) t
  ]
]
