-- ===== src/Dpop/Proved.antt =====
-- server/src/oauth/dpop.ts: what a proof that was accepted has shown.
use mcp_ui.Common.{
  ℕ, ◌≡◌, refl, sym, String, Bool, true, false, ◌&&◌, inl, inr, Option, none, some, leb, ◌==◌,
  string_eq, option_eq, Bool-cases, Option-cases,
}
use mcp_ui.Common.Eq.{option_beq_iff}
use mcp_ui.Common.Dict.{Dict}
use mcp_ui.Normalize.{Text}
use mcp_ui.Tokens.{length}
use mcp_ui.Replay.{claim}
use mcp_ui.Dpop.{
  DpopErrorCode, DpopReason, ProofHeader, Payload, Jose, ProofCheck, proved, rejected, nonce_valid,
  htu_matches, ath_matches, jti_ok, key_expected, claimed, check_key, check_payload, verify_proof,
}

-- A proof of the key, for this request, that was not seen before.
pub record Grounds (jose : Jose) (now : ℕ) (proof : Text) (check : ProofCheck) (seen : Dict ℕ)
    (jkt : String) : Type 0 where
  pub header : ProofHeader
  pub jwk : String
  pub payload : Payload
  pub id : Text
  pub decoded : jose.decode_protected_header proof ≡ some header
  pub own_key : header.jwk ≡ some jwk
  pub public : header.has_private ≡ false
  pub signed : jose.jwt_verify now proof ≡ some payload
  pub thumbprint : jkt ≡ jose.thumbprint jwk
  pub named : payload.jti ≡ some id
  pub method : payload.htm ≡ some check.htm
  pub target : htu_matches jose payload.htu check.htu ≡ true
  pub token : ath_matches jose check.access_token payload.ath ≡ true
  pub expected : key_expected check.expected_jkt jkt ≡ true
  pub nonce : nonce_valid jose now payload.nonce ≡ true
  pub fresh : (claim (jose.jti_key jkt id) 120 now seen).0 ≡ true

proved_inj : {a b : String} → proved a ≡ proved b → a ≡ b
proved_inj e = cc

refused : {c : DpopErrorCode} {r : DpopReason} {jkt : String} → ¬ (rejected c r ≡ proved jkt)
refused e = cc

module _ (jose : Jose) (now : ℕ) (check : ProofCheck) (seen : Dict ℕ) where
  -- What the checks from the thumbprint on leave.
  abbrev KeyChecked : String → Text → Option String → String → Type 0
  KeyChecked jwk id presented jkt =
      (jkt ≡ jose.thumbprint jwk)
      × (key_expected check.expected_jkt jkt ≡ true)
      × (nonce_valid jose now presented ≡ true)
      × ((claim (jose.jti_key jkt id) 120 now seen).0 ≡ true)

  claimed-fresh :
      (jkt : String) (r : Bool × Dict ℕ) {proved_jkt : String}
      → (claimed jkt r).0 ≡ proved proved_jkt
      → (proved_jkt ≡ jkt) × (r.0 ≡ true)
  claimed-fresh jkt (true, seen) e = (sym (proved_inj e), refl)
  claimed-fresh jkt (false, seen) e = absurd cc

  key-KeyChecked :
      (jwk : String) (id : Text) (presented : Option String) {jkt : String}
      → (check_key jose now check jwk id presented seen).0 ≡ proved jkt
      → KeyChecked jwk id presented jkt
  unfolding check_key
  key-KeyChecked jwk id presented e =
      elim (Bool-cases (key_expected check.expected_jkt (jose.thumbprint jwk))) [
        | inr other ↦ absurd (refused (rw other at e))
        | inl same ↦ elim (Bool-cases (nonce_valid jose now presented)) [
          | inr stale ↦ absurd (refused (rw (same, stale) at e))
          | inl good ↦
              let jkt = jose.thumbprint jwk in
              let (thumb, fresh) =
                claimed-fresh jkt (claim (jose.jti_key jkt id) 120 now seen)
                  (rw (same, good) at e) in
              (thumb, rw thumb same, good, rw thumb fresh)
        ]
      ]

  module _ (proof : Text) (header : ProofHeader) (jwk : String) (payload : Payload)
      (decoded : jose.decode_protected_header proof ≡ some header) (own : header.jwk ≡ some jwk)
      (public : header.has_private ≡ false)
      (signed : jose.jwt_verify now proof ≡ some payload) where
    claims-Grounds :
        (o : Option Text) {jkt : String}
        → payload.jti ≡ o
        → (check_payload jose now check jwk payload seen).0 ≡ proved jkt
        → Grounds jose now proof check seen jkt
    unfolding check_payload
    claims-Grounds none at e = absurd (refused (rw at at e))
    claims-Grounds (some id) at e = elim (Bool-cases (jti_ok id)) [
      | inr long ↦ absurd (refused (rw (at, long) at e))
      | inl short ↦ elim (Bool-cases (payload.htm == some check.htm)) [
        | inr method ↦ absurd (refused (rw (at, short, method) at e))
        | inl method ↦ elim (Bool-cases (htu_matches jose payload.htu check.htu)) [
          | inr target ↦ absurd (refused (rw (at, short, method, target) at e))
          | inl target ↦ elim (Bool-cases (ath_matches jose check.access_token payload.ath)) [
            | inr token ↦ absurd (refused (rw (at, short, method, target, token) at e))
            | inl token ↦
                let (thumb, expected, nonce, fresh) =
                  key-KeyChecked jwk id payload.nonce
                    (rw (at, short, method, target, token) at e) in
                record {
                  header = header;
                  jwk = jwk;
                  payload = payload;
                  id = id;
                  decoded = decoded;
                  own_key = own;
                  public = public;
                  signed = signed;
                  thumbprint = thumb;
                  named = at;
                  method = (option_beq_iff payload.htm (some check.htm)).0 method;
                  target = target;
                  token = token;
                  expected = expected;
                  nonce = nonce;
                  fresh = fresh;
                }
          ]
        ]
      ]
    ]

  signed-Grounds :
      (proof : Text) (header : ProofHeader) {jkt : String}
      → jose.decode_protected_header proof ≡ some header
      → (leb 1 (length proof) && leb (length proof) 4096) ≡ true
      → (verify_proof jose now (some proof) check seen).0 ≡ proved jkt
      → Grounds jose now proof check seen jkt
  unfolding verify_proof
  signed-Grounds proof header decoded short e = elim (Option-cases header.jwk) [
    | inl keyless ↦ absurd (refused (rw (short, decoded, keyless) at e))
    | inr (jwk, own) ↦ elim (Bool-cases header.has_private) [
      | inl private ↦ absurd (refused (rw (short, decoded, own, private) at e))
      | inr public ↦ elim (Option-cases (jose.jwt_verify now proof)) [
        | inl unsigned ↦ absurd (refused (rw (short, decoded, own, public, unsigned) at e))
        | inr (payload, signed) ↦
            claims-Grounds proof header jwk payload decoded own public signed payload.jti refl
              (rw (short, decoded, own, public, signed) at e)
      ]
    ]
  ]

  -- A proof is accepted only if it is signed by the public key of its header, names the request's
  -- method and target and, where there is one, the access token, and carries a nonce of this server
  -- and an identifier that was not claimed before; the answer is the thumbprint of that key, which
  -- is the expected one, where one is.
  pub proved-Grounds :
      (proof : Text) {jkt : String}
      → (verify_proof jose now (some proof) check seen).0 ≡ proved jkt
      → Grounds jose now proof check seen jkt
  unfolding verify_proof
  proved-Grounds proof e = elim (Bool-cases (leb 1 (length proof) && leb (length proof) 4096)) [
    | inr long ↦ absurd (refused (rw long at e))
    | inl short ↦ elim (Option-cases (jose.decode_protected_header proof)) [
      | inl garbled ↦ absurd (refused (rw (short, garbled) at e))
      | inr (header, decoded) ↦ signed-Grounds proof header decoded short e
    ]
  ]
