-- ===== src/Dpop/Tests.antt =====
-- A concrete proof of a key.
use mcp_ui.Common.{◌≡◌, refl, false, none, some, [], ◌∷◌, nat_eq, string_eq, option_eq}
use mcp_ui.Common.Dict.{get}
use mcp_ui.Tokens.{length}
use mcp_ui.Replay.{claim}
use mcp_ui.Common.Dict.{size}
use mcp_ui.Dpop.{
  Jose, ProofCheck, proved, nonce_valid, normalize_htu, check_key, check_payload, verify_proof,
}
use mcp_ui.Dpop.Proved.{Grounds, proved-Grounds}

abbrev jose : Jose
jose = record {
  decode_protected_header = λ _. some (record { jwk = some "key"; has_private = false });
  jwt_verify = λ _ _. some (record {
    jti = some (49 ∷ 50 ∷ 51 ∷ 52 ∷ 53 ∷ 54 ∷ 55 ∷ 56 ∷ []);
    htm = some "POST";
    htu = some "https://auth.example/token";
    ath = none;
    nonce = some "nonce";
  });
  thumbprint = λ _. "jkt";
  parse_url = λ _. some (record {
    protocol = "https:";
    hostname = "auth.example";
    host = "auth.example";
    pathname = "/token";
    hash = "";
  });
  nonce_for = λ _. "nonce";
  sha256_base64url = λ _. "";
  jti_key = λ jkt _. jkt;
}

abbrev check : ProofCheck
check = record {
  htm = "POST";
  htu = "https://auth.example/token";
  access_token = none;
  expected_jkt = some "jkt";
}

proof_accepted : (verify_proof jose 1000000 (some (120 ∷ [])) check []).0 ≡ proved "jkt"
unfolding verify_proof check_payload check_key nonce_valid normalize_htu claim get size length
proof_accepted = refl

proved-Grounds_example : Grounds jose 1000000 (120 ∷ []) check [] "jkt"
proved-Grounds_example = proved-Grounds jose 1000000 check [] (120 ∷ []) proof_accepted
