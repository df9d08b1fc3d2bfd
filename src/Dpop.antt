-- ===== src/Dpop.antt =====
-- server/src/oauth/dpop.ts: the check of a DPoP proof. Decoding and verifying the JWT, the
-- thumbprint, URL parsing, the nonces' HMAC and SHA-256 are parameters; times are in milliseconds.
pub mod Proved
mod Tests
use mcp_ui.Common.{
  ℕ, ◌-◌, ◌/◌, String, Bool, true, false, ◌&&◌, ◌||◌, not, Option, none, some, leb, ◌==◌, string_eq,
  option_eq, if◌then◌else◌,
}
use mcp_ui.Common.Dict.{Dict}
use mcp_ui.Normalize.{Text}
use mcp_ui.Tokens.{length}
use mcp_ui.Oauth.Clients.Urls.{Url}
use Prim.Native.String.{◌++◌ as ◌then_text◌}
use mcp_ui.Replay.{claim}

pub data DpopErrorCode : Type 0 where
  invalid_dpop_proof use_dpop_nonce : DpopErrorCode

pub data DpopReason : Type 0 where
  missing malformed private_key signature jti htm htu ath key_mismatch nonce replay scheme :
      DpopReason

-- The `jwk` of a protected header, and whether it holds a private key.
pub record ProofHeader : Type 0 where
  pub jwk : Option String
  pub has_private : Bool

pub record Payload : Type 0 where
  pub jti : Option Text
  pub htm : Option String
  pub htu : Option String
  pub ath : Option String
  pub nonce : Option String

pub record Jose : Type 0 where
  pub decode_protected_header : Text → Option ProofHeader
  pub jwt_verify : ℕ → Text → Option Payload
  pub thumbprint : String → String
  -- `new URL(text)`; none where it throws
  pub parse_url : String → Option Url
  pub nonce_for : ℕ → String
  pub sha256_base64url : Text → String
  -- `dpop-jti:${jkt}:${jti}`
  pub jti_key : String → Text → String

pub record ProofCheck : Type 0 where
  -- The method, in upper case.
  pub htm : String
  pub htu : String
  pub access_token : Option Text
  pub expected_jkt : Option String

pub data ProofResult : Type 0 where
  proved : String → ProofResult
  rejected : DpopErrorCode → DpopReason → ProofResult

abbrev pub refuse : DpopReason → Dict ℕ → ProofResult × Dict ℕ
refuse reason seen = (rejected invalid_dpop_proof reason, seen)

-- `nonceValid`
unfoldable pub nonce_valid : Jose → ℕ → Option String → Bool
nonce_valid jose now none = false
nonce_valid jose now (some value) =
    let window = now / 300000 in
    value == jose.nonce_for window || value == jose.nonce_for (window - 1)

abbrev pub comparable : Option Url → Option String
comparable none = none
comparable (some url) =
    some (url.protocol then_text ("//" then_text (url.host then_text url.pathname)))

-- `normalizeHtu`
unfoldable pub normalize_htu : Jose → String → Option String
normalize_htu jose value = comparable (jose.parse_url value)

-- The htu of the proof is that of the request.
abbrev pub htu_matches : Jose → Option String → String → Bool
htu_matches jose none expected = false
htu_matches jose (some presented) expected = elim (normalize_htu jose presented) [
  | none ↦ false
  | some p ↦ not (p == "") && some p == normalize_htu jose expected
]

abbrev pub ath_matches : Jose → Option Text → Option String → Bool
ath_matches jose none hash = true
ath_matches jose (some token) hash = hash == some (jose.sha256_base64url token)

abbrev pub jti_ok : Text → Bool
jti_ok id = leb 8 (length id) && leb (length id) 256

-- The key is the one that was expected, if one was.
abbrev pub key_expected : Option String → String → Bool
key_expected none jkt = true
key_expected (some expected) jkt = jkt == expected

abbrev pub claimed : String → Bool × Dict ℕ → ProofResult × Dict ℕ
claimed jkt (true, seen) = (proved jkt, seen)
claimed jkt (false, seen) = refuse replay seen

-- From the thumbprint on.
unfoldable pub check_key :
    Jose → ℕ → ProofCheck → String → Text → Option String → Dict ℕ → ProofResult × Dict ℕ
check_key jose now check jwk id presented seen =
    let jkt = jose.thumbprint jwk in
    if key_expected check.expected_jkt jkt
    then (if nonce_valid jose now presented
        then claimed jkt (claim (jose.jti_key jkt id) 120 now seen)
        else (rejected use_dpop_nonce nonce, seen))
    else refuse key_mismatch seen

-- The claims of the payload, in the order of `verifyProof`.
unfoldable pub check_payload :
    Jose → ℕ → ProofCheck → String → Payload → Dict ℕ → ProofResult × Dict ℕ
check_payload jose now check jwk payload seen = elim payload.jti [
  | none ↦ refuse jti seen
  | some id ↦
      if jti_ok id
      then (if payload.htm == some check.htm
          then (if htu_matches jose payload.htu check.htu
              then (if ath_matches jose check.access_token payload.ath
                  then check_key jose now check jwk id payload.nonce seen
                  else refuse ath seen)
              else refuse htu seen)
          else refuse htm seen)
      else refuse jti seen
]

-- `verifyProof`; `verifyDpopProof` counts its refusals and is otherwise the same.
unfoldable pub verify_proof : Jose → ℕ → Option Text → ProofCheck → Dict ℕ → ProofResult × Dict ℕ
verify_proof jose now none check seen = refuse missing seen
verify_proof jose now (some proof) check seen =
    if leb 1 (length proof) && leb (length proof) 4096
    then elim (jose.decode_protected_header proof) [
      | none ↦ refuse malformed seen
      | some header ↦ elim header.jwk [
        | none ↦ refuse private_key seen
        | some jwk ↦
            if header.has_private
            then refuse private_key seen
            else elim (jose.jwt_verify now proof) [
              | none ↦ refuse signature seen
              | some payload ↦ check_payload jose now check jwk payload seen
            ]
      ]
    ]
    else refuse missing seen
