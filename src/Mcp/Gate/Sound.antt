-- ===== src/Mcp/Gate/Sound.antt =====
-- Who passes the gate.
use mcp_ui.Common.{
  ℕ, ◌≡◌, ◌≢◌, ◌⊎◌, refl, subst, String, true, Option, none, some, List, [], ◌∷◌, list_eq, nat_eq,
  if◌then◌else◌, Bool-cases, inl, inr, arith, Memᴰ,
}
use mcp_ui.Common.Dict.{Dict}
use mcp_ui.Normalize.{Text}
use mcp_ui.Dpop.{Jose, ProofResult, proved, rejected}
use mcp_ui.RateLimit.{BucketResult, allowed, refused}
use mcp_ui.Oauth.Scope.{includes}
use mcp_ui.Oauth.Types.{Tables, Env}
use mcp_ui.Oauth.Verify.{
  Verified, VerifiedToken, verified, invalid_token, insufficient_scope, verify_access_token,
}
use mcp_ui.Oauth.Verify.Sound.{verified-Grounds}
use mcp_ui.Mcp.Policy.{Scope, ToolPolicy, policy_for, scope_text}
use mcp_ui.Mcp.Gate.{
  Message, Calls, tool_called, protected_calls_in, Scheme, Credential, GateRequest, anonymous,
  verified_caller, Challenge, GateOutcome, proceed, challenged, dpop_challenged, rate_limited,
  GateState, counted_grant, room_for, admit, prove, pass, verdict_of, gate,
}
use mcp_ui.Mcp.Gate.Scopes.{protect_all-has, includes-All}

module _ {L : Type 0} (env : Env) (jose : Jose) (mcp_url : String)
    (per_grant per_address : String → L → BucketResult × L) (now : ℕ) (request : GateRequest)
    (t : Tables) (s : GateState L) where
  abbrev admitted : Calls → VerifiedToken → Text → GateOutcome
  admitted = admit env jose mcp_url per_grant per_address request

  not_caller :
      {v : Verified} {token : Text} {c d : Option Challenge}
      → proceed anonymous d ≡ proceed (verified_caller v token) c
      → ⊥
  not_caller e = cc

  refused_caller :
      (tools : List String) (reason : Challenge) (v : Verified) (token : Text)
      (c : Option Challenge)
      → (elim tools as (λ _. GateOutcome) [
        | [] ↦ proceed anonymous none
        | _ ∷ _ ↦
            if request.wants_tool_challenge
            then proceed anonymous (some reason)
            else challenged reason
      ])
        ≢ proceed (verified_caller v token) c
  refused_caller [] reason v token c e = not_caller e
  refused_caller (_ ∷ _) reason v token c e = elim (Bool-cases request.wants_tool_challenge) [
    | inl wants ↦ not_caller (rw wants at e)
    | inr plain ↦ absurd (ground arith)
  ]

  admit-verified :
      (wanted : Calls) (answer : VerifiedToken) (presented : Text) (v : Verified) (token : Text)
      (c : Option Challenge)
      → admitted wanted answer presented ≡ proceed (verified_caller v token) c
      → (answer ≡ verified v) × (presented ≡ token)
  unfolding admit
  admit-verified wanted (verified w) presented v token c e = (cc, cc)
  admit-verified wanted invalid_token presented v token c e =
      absurd (refused_caller wanted.tools _ v token c e)
  admit-verified wanted (insufficient_scope _ _ _) presented v token c e =
      absurd (refused_caller wanted.tools _ v token c e)

  after_proof :
      (r : ProofResult) (o : GateOutcome) (v : Verified) (token : Text) (c : Option Challenge)
      → (elim r as (λ _. GateOutcome) [ proved _ ↦ o | rejected _ _ ↦ dpop_challenged ])
        ≡ proceed (verified_caller v token) c
      → o ≡ proceed (verified_caller v token) c
  after_proof (proved _) o v token c e = e
  after_proof (rejected _ _) o v token c e = absurd (ground arith)

  scheme_cases : (x : Scheme) → (x ≡ Scheme.bearer) ⊎ (x ≡ Scheme.dpop)
  scheme_cases Scheme.bearer = inl refl
  scheme_cases Scheme.dpop = inr refl

  prove-verified :
      (wanted : Calls) (w : Verified) (credential : Credential) (key : Option String)
      (seen : Dict ℕ) (v : Verified) (token : Text) (c : Option Challenge)
      → (prove env jose mcp_url per_grant per_address now request wanted w credential key seen).0
        ≡ proceed (verified_caller v token) c
      → (verified w ≡ verified v)
        × (credential.token ≡ token)
        × ((key ≡ none) ⊎ (credential.scheme ≡ Scheme.dpop))
  unfolding prove
  prove-verified wanted w credential none seen v token c e =
      let (a, b) = admit-verified wanted (verified w) credential.token v token c e in
      (a, b, inl refl)
  prove-verified wanted w credential (some jkt) seen v token c e =
      elim (scheme_cases credential.scheme) [
        | inl plain ↦ absurd (challenged_caller (rw plain at e))
        | inr proof ↦
            let (a, b) =
              admit-verified wanted (verified w) credential.token v token c
                (after_proof _ _ v token c (rw proof at e)) in
            (a, b, inr proof)
      ]
    where
      challenged_caller :
          {o : Option Challenge} → dpop_challenged ≡ proceed (verified_caller v token) o → ⊥
      challenged_caller e = cc

  pass-verified :
      (wanted : Calls) (credential : Option Credential) (answer : VerifiedToken) (seen : Dict ℕ)
      (v : Verified) (token : Text) (c : Option Challenge)
      → (pass env jose mcp_url per_grant per_address now request wanted credential answer seen).0
        ≡ proceed (verified_caller v token) c
      → (cr : Credential) × (credential ≡ some cr)
        × (answer ≡ verified v)
        × (cr.token ≡ token)
        × ((v.cnf_jkt ≡ none) ⊎ (cr.scheme ≡ Scheme.dpop))
  unfolding pass
  pass-verified wanted none answer seen v token c e =
      absurd (not_verified (admit-verified wanted invalid_token [] v token c e).0)
    where
      not_verified : invalid_token ≡ verified v → ⊥
      not_verified e = cc
  pass-verified wanted (some cr) (verified w) seen v token c e =
      let (a, b, k) = prove-verified wanted w cr w.cnf_jkt seen v token c e in
      (
        cr,
        refl,
        a,
        b,
        subst (λ x. (x.cnf_jkt ≡ none) ⊎ (cr.scheme ≡ Scheme.dpop)) (verified_inj a) k,
      )
    where
      verified_inj : {a b : Verified} → verified a ≡ verified b → a ≡ b
      verified_inj e = cc
  pass-verified wanted (some cr) invalid_token seen v token c e =
      let (a, b) = admit-verified wanted invalid_token cr.token v token c e in absurd (ground arith)
  pass-verified wanted (some cr) (insufficient_scope g x y) seen v token c e =
      let (a, b) = admit-verified wanted (insufficient_scope g x y) cr.token v token c e in
      absurd (ground arith)

  -- What a verified caller has shown.
  pub record Admitted (v : Verified) (token : Text) : Type 0 where
    pub credential : Credential
    pub presented : request.credential ≡ some credential
    pub same_token : credential.token ≡ token
    pub checked :
        verify_access_token env now env.resource_uri
          (some token)
          (protected_calls_in request.body).scopes
          t
        ≡ verified v
    pub by_key : (v.cnf_jkt ≡ none) ⊎ (credential.scheme ≡ Scheme.dpop)

  -- The gate passes a caller as verified only if the request presented a credential with that
  -- token, the verifier accepted the token for all the scopes that the body's calls want, with the
  -- answer that the caller carries, and the credential came in the DPoP scheme if the token is bound
  -- to a key.
  pub gate-Admitted :
      (v : Verified) (token : Text) (c : Option Challenge)
      → (gate env jose mcp_url per_grant per_address now request t s).0
        ≡ proceed (verified_caller v token) c
      → Admitted v token
  unfolding gate verdict_of
  gate-Admitted v token c e =
      elim (room_cases
        (room_for env jose mcp_url per_grant per_address request
          (counted_grant env jose mcp_url per_grant per_address
            (verdict_of env jose mcp_url per_grant per_address now request t))
          s.limits).0) [
            | inr (n, full) ↦ absurd (limited_caller (rw (full, gate) at e))
            | inl free ↦
                let (cr, presented, checked, same, key) =
                  pass-verified (protected_calls_in request.body) request.credential _ s.seen v
                    token c (rw (free, gate) at e) in
                record {
                  credential = cr;
                  presented = presented;
                  same_token = same;
                  checked = rw (presented, verdict_of, same) at checked;
                  by_key = key;
                }
          ]
    where
      room_cases : (r : BucketResult) → (r ≡ allowed) ⊎ ((n : ℕ) × (r ≡ refused n))
      room_cases allowed = inl refl
      room_cases (refused n) = inr (n, refl)

      limited_caller :
          {n : ℕ} {o : Option Challenge} → rate_limited n ≡ proceed (verified_caller v token) o → ⊥
      limited_caller e = cc

  -- A caller that passes the gate as verified holds every scope that the calls in the body ask for,
  -- all of them together: for every message that calls a tool of the policy table that needs a
  -- scope, that scope is among those of the caller's token.
  pub gate_scopes :
      (v : Verified) (token : Text) (c : Option Challenge) (m : Message) (name : String)
      (p : ToolPolicy) (scope : Scope)
      → (gate env jose mcp_url per_grant per_address now request t s).0
        ≡ proceed (verified_caller v token) c
      → Memᴰ m request.body
      → tool_called m ≡ some name
      → policy_for name ≡ some p
      → p.scope ≡ some scope
      → includes v.scopes (scope_text scope) ≡ true
  unfolding protected_calls_in
  gate_scopes v token c m name p scope e called named at scoped =
      let a = gate-Admitted v token c e in
      let g = verified-Grounds env now env.resource_uri token _ t v a.checked in
      includes-All _ v.scopes (scope_text scope) g.allowed
        (protect_all-has request.body _ m name p scope called named at scoped)
