-- ===== src/Internal/Accepted.antt =====
-- server/src/oauth/exchange.ts and device-service/verify.ts: what an internal token is good for.
use mcp_ui.Common.{
  ℕ, ◌+◌, ◌/◌, ◌≤◌, ◌<◌, ◌≡◌, refl, sym, ap, ◌∙◌, String, true, inl, inr, Option, none, some, [],
  ◌∷◌, leb, ◌==◌, nat_eq, string_eq, option_eq, arith, Bool-cases, min, beq_self, subst,
  if◌then◌else◌,
}
use mcp_ui.Common.Dict.{get, size}
use mcp_ui.Exec.{Result, ok, err}
use mcp_ui.Mcp.Policy.{Scope, devices_read, devices_control, devices_create}
use mcp_ui.Devices.Types.{Channel, mcp, native, Identity}
use mcp_ui.Oauth.Types.{Env, Tables}
use mcp_ui.Oauth.Verify.{Verified, VerifiedToken}
use mcp_ui.Internal.Workload.{
  WorkloadName, mcp_rs, api_gw, Workload, Confirmation, jkt, x5t_s256, ClaimObject, entry_of,
  confirms, workload_uri,
}
use mcp_ui.Internal.Exchange.{
  ExchangeRequest, ExchangedToken, Subject, Claims, internal_audience, internal_token_ttl_seconds,
  channel_of, subject_of, resolve_subject, claims_of, signed, exchange_token,
}
use mcp_ui.Internal.Service.{
  Payload, scope_name, channel_named, check_payload, verify_internal_token,
}

abbrev pub channel_text : Channel → String
channel_text mcp = "mcp"
channel_text native = "native"
channel_text Channel.internal = "internal"

abbrev pub cnf_object : Confirmation → ClaimObject
cnf_object c = let (key, value) = entry_of c in (key, some value) ∷ []

-- The payload that a token of the claims carries.
abbrev pub payload_of : Claims → Payload
payload_of c = record {
  scope = some (scope_name c.scope);
  sub = some c.sub;
  client_id = some c.client_id;
  grant_id = some c.grant_id;
  channel = some (channel_text c.channel);
  auth_method = some c.auth_method;
  act_sub = some c.act_sub;
  cnf = some (cnf_object c.cnf);
}

ok_inj : {A : Type 0} {a b : A} → ok a ≡ ok b → a ≡ b
ok_inj e = cc

-- A token was exchanged from an access token that was verified.
signed-subject :
    {T : Type 0} (sign : Claims → T) (issuer : String) (now : ℕ) (jti : String)
    (request : ExchangeRequest) (o : Result Subject) {token : ExchangedToken T}
    → signed sign issuer now jti request o ≡ ok token
    → (subject : Subject) × (o ≡ ok subject)
      × (token.token ≡ sign (claims_of issuer now jti request subject))
      × (token.expires_in ≤ 60)
signed-subject sign issuer now jti request (err e) h = absurd cc
signed-subject sign issuer now jti request (ok subject) h =
    let expires_in = min internal_token_ttl_seconds subject.expires_in in
    elim (Bool-cases (leb expires_in 0)) [
      | inl over ↦ absurd (ground arith)
      | inr live ↦
          let same = ok_inj (rw live at h) in
          (
            subject,
            refl,
            ap (λ t. t.token) (sym same),
            subst (λ t. t.expires_in ≤ 60) same (ground arith),
          )
    ]

subject-verified :
    (name : WorkloadName) (v : VerifiedToken) {subject : Subject}
    → subject_of name v ≡ ok subject
    → (caller : Verified) × (v ≡ VerifiedToken.verified caller)
      × (subject.account_id ≡ caller.account_id)
      × (subject.grant_id ≡ caller.grant_id)
      × (subject.channel ≡ channel_of name)
      × (subject.expires_in ≡ caller.expires_in)
subject-verified name (VerifiedToken.verified caller) e =
    let same = sym (ok_inj e) in
    (
      caller,
      refl,
      ap (λ s. s.account_id) same,
      ap (λ s. s.grant_id) same,
      ap (λ s. s.channel) same,
      ap (λ s. s.expires_in) same,
    )
subject-verified name VerifiedToken.invalid_token e = absurd cc
subject-verified name (VerifiedToken.insufficient_scope _ _ _) e = absurd cc

channel_named_text :
    (name : WorkloadName)
    → channel_named (some (channel_text (channel_of name))) ≡ some (channel_of name)
channel_named_text mcp_rs = refl
channel_named_text api_gw = refl

scope_named : String → Option Scope
scope_named name =
    if name == "devices:read"
    then some devices_read
    else (if name == "devices:control"
        then some devices_control
        else (if name == "devices:create" then some devices_create else none))

confirms_self : (c : Confirmation) → confirms (some (cnf_object c)) c ≡ true
unfolding confirms get size
confirms_self (jkt v) = rw (beq_self v) refl
confirms_self (x5t_s256 v) = rw (beq_self v) refl

module _ {T : Type 0} (env : Env) (sign : Claims → T) (jwt_verify : ℕ → T → Option Payload)
    (issuer : String) (now later : ℕ) (jti : String) (request : ExchangeRequest) (t : Tables) where
  -- Within thirty seconds of an exchange the Device Service accepts the internal token, from the
  -- workload that exchanged it and for the scope exchanged for, where the signature's check accepts
  -- a signed token of this issuer for the Device Service until thirty seconds after its expiry.
  pub exchanged-accepted :
      (request_id : String) {token : ExchangedToken T}
      → ((c : Claims)
          → c.iss ≡ issuer
          → c.aud ≡ internal_audience
          → later / 1000 < c.exp + 30
          → jwt_verify later (sign c) ≡ some (payload_of c))
      → later / 1000 < now / 1000 + 30
      → exchange_token env sign issuer now jti request t ≡ ok token
      → (i : Identity) × (verify_internal_token jwt_verify later token.token request.workload
            request.scope request_id
          ≡ ok i)
  unfolding exchange_token resolve_subject verify_internal_token
  exchanged-accepted request_id {token} law soon made =
      let (subject, from, text, short) =
        signed-subject sign issuer now jti request (resolve_subject env now request t) made in
      let (caller, checked, account, grant, channel, lasts) =
        subject-verified request.workload.name _ from in
      let c = claims_of issuer now jti request subject in
      let known =
        ap (λ h. channel_named (some (channel_text h))) channel
        ∙ channel_named_text request.workload.name in
      (
        record {
          account_id = subject.account_id;
          channel = channel_of request.workload.name;
          request_id = some request_id;
          client_id = some subject.client_id;
          grant_id = some subject.grant_id;
          via = some (workload_uri request.workload);
          auth_method = some subject.auth_method;
        },
        ap (check_payload request.workload request.scope request_id)
              (ap (jwt_verify later) text ∙ law c refl refl (omega arith))
            ∙ rw
                (
                  beq_self (workload_uri request.workload),
                  confirms_self request.workload.cnf,
                  beq_self (scope_name request.scope),
                  known,
                )
                refl,
      )
