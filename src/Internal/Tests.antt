-- ===== src/Internal/Tests.antt =====
-- A concrete exchange of a token, and its use at the Device Service.
use mcp_ui.Common.{
  true, ltb, if◌then◌else◌, ◌<◌, ◌/◌, ◌+◌, ℕ, arith, ◌≡◌, refl, Option, none, some, [], ◌∷◌, nat_eq,
  string_eq, option_eq,
}
use mcp_ui.Common.Rows.{first, any, every, select}
use mcp_ui.Common.Dict.{get, size}
use mcp_ui.Tokens.{
  TokenKind, mint, well_formed, length, take, drop, starts_with, is_base64url, base62_digit,
  base62_from, checksum, prefix, letters, token_digest, token_digest_candidates,
}
use mcp_ui.Exec.{ok, err}
use mcp_ui.Mcp.Policy.{devices_read, scope_text}
use mcp_ui.Devices.Types.{Channel, Identity}
use mcp_ui.Oauth.Fixtures.{env, token_of}
use mcp_ui.Oauth.Scope.{split_words}
use mcp_ui.Oauth.Types.{Tables, hash_of}
use mcp_ui.Oauth.Verify.{verify_access_token, checked}
use mcp_ui.Internal.Workload.{
  mcp_rs, Confirmation, Workload, create_workload, confirms, workload_uri,
}
use mcp_ui.Internal.Exchange.{
  ExchangeRequest, ExchangedToken, Claims, resolve_subject, exchange_token,
}
use mcp_ui.Internal.Service.{Payload, verify_internal_token, internal_token_refused}
use mcp_ui.Internal.Accepted.{payload_of, exchanged-accepted}

abbrev tables : Tables
tables = record {
  grants =
      record {
        id = "g1";
        account_id = "alice";
        client_id = "client";
        resource = "mcp";
        scope = scope_text devices_read;
        dpop_jkt = none;
        revoked_at = none;
      }
      ∷ [];
  access_tokens =
      record {
        token_hash = "A";
        grant_id = "g1";
        audience = "mcp";
        scope = scope_text devices_read;
        cnf_jkt = none;
        expires_at = 9000;
      }
      ∷ [];
  refresh_tokens = [];
  codes = [];
  pending = [];
}

abbrev adapter : Workload
adapter = record { name = mcp_rs; cnf = Confirmation.jkt "bound" }

abbrev request : ExchangeRequest
request = record {
  workload = adapter;
  subject_token = token_of TokenKind.access 65;
  scope = devices_read;
}

-- A signed token is its claims; the check of the signature minds the expiry.
abbrev sign : Claims → Claims
sign c = c

abbrev jwt_verify : ℕ → Claims → Option Payload
jwt_verify now c = if ltb (now / 1000) (c.exp + 30) then some (payload_of c) else none

abbrev claims : Claims
claims = record {
  iss = "auth";
  aud = "https://device.internal";
  sub = "alice";
  iat = 2;
  exp = 9;
  jti = "tb_1";
  client_id = "client";
  grant_id = "g1";
  scope = devices_read;
  channel = Channel.mcp;
  auth_method = "oauth";
  act_sub = "spiffe://iot-switch/mcp-rs";
  cnf = Confirmation.jkt "bound";
}

abbrev token : ExchangedToken Claims
token = record { token = claims; expires_in = 7; grant_id = "g1" }

exchanged : exchange_token env sign "auth" 2000 "tb_1" request tables ≡ ok token
unfolding exchange_token resolve_subject verify_access_token checked split_words scope_text
    workload_uri first any every select well_formed mint length take drop starts_with is_base64url
    base62_digit base62_from checksum prefix letters token_digest token_digest_candidates hash_of
exchanged = refl

abbrev identity : Identity
identity = record {
  account_id = "alice";
  channel = Channel.mcp;
  request_id = some "r";
  client_id = some "client";
  grant_id = some "g1";
  via = some "spiffe://iot-switch/mcp-rs";
  auth_method = some "oauth";
}

-- Another process has another binding.
stolen :
    verify_internal_token jwt_verify 3000 claims (create_workload mcp_rs "other") devices_read "r"
    ≡ err internal_token_refused
unfolding verify_internal_token create_workload confirms workload_uri get size
stolen = refl

reads_live :
    (c : Claims) → 3000 / 1000 < c.exp + 30 → jwt_verify 3000 (sign c) ≡ some (payload_of c)
reads_live c soon = let live : ltb (3000 / 1000) (c.exp + 30) ≡ true = ground arith in rw live refl

exchanged-accepted_example :
    (i : Identity) × (verify_internal_token jwt_verify 3000 claims request.workload request.scope
        "r"
      ≡ ok i)
exchanged-accepted_example =
    exchanged-accepted env sign jwt_verify "auth" 2000 3000 "tb_1" request tables "r"
      (λ c _ _ soon. reads_live c soon) (omega arith) exchanged
