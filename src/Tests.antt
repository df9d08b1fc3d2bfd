-- ===== src/Tests.antt =====
-- Concrete runs of the limits, the replay store, the tokens, the names and the gate.
use mcp_ui.Common.{ℕ, ◌≡◌, refl, String, true, false, none, some, List, [], ◌∷◌, min, arith, Memᴰ}
use mcp_ui.Common.Rows.{any, every, first, select}
use mcp_ui.Common.Dict.{Dict, get}
use mcp_ui.Normalize.{Text, Unicode}
use mcp_ui.RateLimit.{Window, BucketResult, allowed}
use mcp_ui.RateLimit.Windows.{Hit, run, ideal_run, sweeping_unseen}
use mcp_ui.RateLimit.Limits.{Call, calls_for, granted, granted_in_window}
use mcp_ui.Replay.Once.{Claim, accepted, accepted_once}
use mcp_ui.Tokens.{
  TokenKind, mint, well_formed, length, is_base64url, take, drop, starts_with, base62_digit,
  base62_from, checksum, prefix, letters, token_digest, token_digest_candidates,
}
use mcp_ui.Dpop.{Jose}
use mcp_ui.Oauth.Scope.{split_words, includes}
use mcp_ui.Oauth.Types.{Tables, Env, hash_of}
use mcp_ui.Oauth.Verify.{Verified, verify_access_token, checked}
use mcp_ui.Mcp.Policy.{Scope, WriteKind, policy_for, scope_text, write}
use mcp_ui.Mcp.Gate.{
  Message, GateRequest, Scheme, GateState, verified_caller, proceed, gate, verdict_of, pass, prove,
  admit, protected_calls_in, protect_all, protect, add_scope,
}
use mcp_ui.Mcp.Gate.Sound.{gate_scopes, gate-Admitted, Admitted}

abbrev call_at : String → ℕ → Call
call_at key now = record { key = key; now = now; later = now }

abbrev some_calls : List Call
some_calls = call_at "b" 12 ∷ call_at "a" 15 ∷ call_at "a" 20 ∷ []

granted_in_window_example :
    granted 2 100 "a" [] (call_at "a" 10 ∷ some_calls)
    ≡ min 2 (calls_for "a" (call_at "a" 10 ∷ some_calls))
unfolding get
granted_in_window_example =
    granted_in_window 2 100 "a" (call_at "a" 10) some_calls [] tt (omega arith) refl refl
      (omega arith, (omega arith, (omega arith, tt)))

abbrev hit_at : String → ℕ → Hit
hit_at key time = record { key = key; window_ms = 10; time = time }

sweeping_unseen_example :
    run [] (hit_at "a" 1 ∷ hit_at "b" 5 ∷ hit_at "a" 20 ∷ [])
    ≡ ideal_run (λ _. none) (hit_at "a" 1 ∷ hit_at "b" 5 ∷ hit_at "a" 20 ∷ [])
sweeping_unseen_example =
    sweeping_unseen (hit_at "a" 1 ∷ hit_at "b" 5 ∷ hit_at "a" 20 ∷ [])
      (omega arith, (omega arith, (omega arith, tt)))

abbrev claim_at : String → ℕ → Claim
claim_at key now = record { key = key; ttl_seconds = 120; now = now }

accepted_once_example : accepted "j" [] (claim_at "j" 5 ∷ claim_at "k" 6 ∷ claim_at "j" 7 ∷ []) ≡ 1
unfolding get
accepted_once_example =
    accepted_once (claim_at "j" 5) (claim_at "k" 6 ∷ claim_at "j" 7 ∷ []) [] tt refl
      (omega arith, (omega arith, tt))

-- "  a \t b "
abbrev typed : Text
typed = 32 ∷ 32 ∷ 97 ∷ 32 ∷ 9 ∷ 32 ∷ 98 ∷ 32 ∷ []

abbrev plain : Unicode
plain = record { nfkc = λ s. s; to_lower_case = λ s. s }

abbrev body_of : ℕ → Text
body_of c =
    c ∷ c ∷ c ∷ c ∷ c ∷ c ∷ c ∷ c ∷ c ∷ c ∷ c ∷ c ∷ c ∷ c ∷ c ∷ c ∷ c ∷ c ∷ c ∷ c ∷ c ∷ c ∷ c ∷ c
    ∷ c ∷ c ∷ c ∷ c ∷ c ∷ c ∷ c ∷ c ∷ c ∷ c ∷ c ∷ c ∷ c ∷ c ∷ c ∷ c ∷ c ∷ c ∷ c ∷ []

abbrev env : Env
env = record {
  crc32 = λ _. 0;
  hmac = λ key token. "h";
  sha256_base64url = λ s. s;
  peppers = record { current = "p"; previous = [] };
  resource_uri = "mcp";
  api_resource = "api";
  native_access_token_ttl_seconds = 600;
  refresh_grace_seconds = 30;
  refresh_requires_offline_access = false;
}

abbrev jose : Jose
jose = record {
  decode_protected_header = λ _. none;
  jwt_verify = λ _ _. none;
  thumbprint = λ s. s;
  parse_url = λ _. none;
  nonce_for = λ _. "n";
  sha256_base64url = λ _. "h";
  jti_key = λ jkt _. jkt;
}

abbrev tables : Tables
tables = record {
  grants =
      record {
        id = "g1";
        account_id = "alice";
        client_id = "client";
        resource = "mcp";
        scope = scope_text Scope.devices_control;
        dpop_jkt = none;
        revoked_at = none;
      }
      ∷ [];
  access_tokens =
      record {
        token_hash = "h";
        grant_id = "g1";
        audience = "mcp";
        scope = scope_text Scope.devices_control;
        cnf_jkt = none;
        expires_at = 9000;
      }
      ∷ [];
  refresh_tokens = [];
  codes = [];
  pending = [];
}

abbrev token : Text
token = mint (λ _. 0) TokenKind.access (body_of 65)

abbrev control_call : Message
control_call = record { method = some "tools/call"; name = some "control_device" }

abbrev request : GateRequest
request = record {
  credential = some (record { scheme = Scheme.bearer; token = token });
  body = control_call ∷ [];
  ip = "::1";
  method = "POST";
  proof = none;
  wants_tool_challenge = false;
}

abbrev state : GateState (Unit {0})
state = record { limits = tt; seen = [] }

abbrev always : String → Unit {0} → BucketResult × Unit {0}
always key s = (allowed, s)

abbrev caller : Verified
caller = record {
  account_id = "alice";
  client_id = "client";
  grant_id = "g1";
  scopes = scope_text Scope.devices_control ∷ [];
  expires_in = 8;
  cnf_jkt = none;
}

passed :
    (gate env jose "https://mcp/mcp" always always 1000 request tables state).0
    ≡ proceed (verified_caller caller token) none
unfolding gate verdict_of pass prove admit protected_calls_in protect_all protect add_scope
    policy_for verify_access_token checked split_words select scope_text every well_formed mint
    length take drop starts_with is_base64url base62_digit base62_from checksum prefix letters
    token_digest token_digest_candidates hash_of first any
passed = refl

gate-Admitted_example :
    Admitted env jose "https://mcp/mcp" always always 1000 request tables state caller token
gate-Admitted_example =
    gate-Admitted env jose "https://mcp/mcp" always always 1000 request tables state caller token
      none passed

gate_scopes_example : includes caller.scopes (scope_text Scope.devices_control) ≡ true
unfolding policy_for
gate_scopes_example =
    gate_scopes env jose "https://mcp/mcp" always always 1000 request tables state caller token none
      control_call "control_device"
      (record {
        scope = some Scope.devices_control;
        annotations = write;
        budget = some WriteKind.control;
      })
      Scope.devices_control passed (Memᴰ.head refl) refl refl refl

abbrev full_minute : Window
full_minute = record { count = 20; reset_at = 60000 }

abbrev spent : Dict Window
spent = ("control-grant:g1", full_minute) ∷ []

spent_at : get "control-grant:g1" spent ≡ some full_minute
unfolding get
spent_at = refl
