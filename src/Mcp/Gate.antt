-- ===== src/Mcp/Gate.antt =====
-- server/src/mcp/gate.ts: whether a request reaches the tools, and as whom. The verifier is the
-- local one (server/src/security/verifier.ts); the two rate limits are given. Metrics are left out.
pub mod Scopes
pub mod Sound
use mcp_ui.Common.{
  ℕ, String, Bool, true, false, ◌&&◌, not, Option, none, some, List, [], ◌∷◌, ◌++◌, map, ◌==◌,
  string_eq, option_eq, list_eq, nat_eq, if◌then◌else◌,
}
use mcp_ui.Common.Rows.{any}
use mcp_ui.Common.Dict.{Dict}
use mcp_ui.Normalize.{Text}
use mcp_ui.Dpop.{Jose, ProofCheck, ProofResult, proved, rejected, verify_proof}
use mcp_ui.RateLimit.{BucketResult, allowed, refused}
use mcp_ui.Oauth.Types.{Tables, Env, is_set}
use mcp_ui.Oauth.Verify.{
  Verified, VerifiedToken, verified, invalid_token, insufficient_scope, verify_access_token,
}
use mcp_ui.Mcp.Policy.{Scope, ToolPolicy, policy_for, scope_text}

-- A JSON-RPC message as the gate reads it: its method and `params.name`, where they are strings.
pub record Message : Type 0 where
  pub method : Option String
  pub name : Option String

pub record Calls : Type 0 where
  pub tools : List String
  pub scopes : List Text

-- `scopes.add(scope)`
unfoldable pub add_scope : List Text → Text → List Text
add_scope scopes s = if any (λ x. x == s) scopes then scopes else scopes ++ s ∷ []

-- One turn of the loop of `protectedCallsIn`, of a message that calls a tool.
unfoldable pub protect : String → Option ToolPolicy → Calls → Calls
protect name none calls = record calls { tools = calls.tools ++ name ∷ [] }
protect name (some policy) calls = elim policy.scope [
  | none ↦ calls
  | some scope ↦ record {
    tools = calls.tools ++ name ∷ [];
    scopes = add_scope calls.scopes (scope_text scope);
  }
]

abbrev pub tool_called : Message → Option String
tool_called m = if m.method == some "tools/call" then m.name else none

unfoldable pub protect_all : List Message → Calls → Calls
protect_all [] calls = calls
protect_all (m ∷ ms) calls = elim (tool_called m) [
  | none ↦ protect_all ms calls
  | some name ↦ protect_all ms (protect name (policy_for name) calls)
]

-- `protectedCallsIn`; a body that is no array is a list of one.
unfoldable pub protected_calls_in : List Message → Calls
protected_calls_in body = protect_all body (record { tools = []; scopes = [] })

pub data Scheme : Type 0 where
  bearer dpop : Scheme

pub record Credential : Type 0 where
  pub scheme : Scheme
  pub token : Text

pub record GateRequest : Type 0 where
  pub credential : Option Credential
  pub body : List Message
  pub ip : String
  pub method : String
  pub proof : Option Text
  -- `wantsToolChallenge`, which reads the configuration and one header.
  pub wants_tool_challenge : Bool

pub data Caller : Type 0 where
  anonymous : Caller
  verified_caller : Verified → Text → Caller

pub data Challenge : Type 0 where
  insufficient invalid : Challenge

pub data GateOutcome : Type 0 where
  proceed : Caller → Option Challenge → GateOutcome
  challenged : Challenge → GateOutcome
  dpop_challenged : GateOutcome
  rate_limited : ℕ → GateOutcome

abbrev pub reason_of : VerifiedToken → Challenge
reason_of (insufficient_scope _ _ _) = insufficient
reason_of _ = invalid

-- What the gate keeps between requests: the windows of its limits, and the proofs seen.
pub record GateState (L : Type 0) : Type 0 where
  pub limits : L
  pub seen : Dict ℕ

module _ {L : Type 0} (env : Env) (jose : Jose) (mcp_url : String)
    (per_grant per_address : String → L → BucketResult × L) where
  -- The grant that a token is counted against.
  abbrev pub counted_grant : VerifiedToken → Option String
  counted_grant (verified v) = some v.grant_id
  counted_grant (insufficient_scope grant_id _ _) = some grant_id
  counted_grant invalid_token = none

  -- The last part of `gate`: what is answered to a caller that may go on.
  unfoldable pub admit : GateRequest → Calls → VerifiedToken → Text → GateOutcome
  admit request wanted (verified v) token = proceed (verified_caller v token) none
  admit request wanted answer token = elim wanted.tools [
    | [] ↦ proceed anonymous none
    | _ ∷ _ ↦
        let reason = reason_of answer in
        if request.wants_tool_challenge then proceed anonymous (some reason) else challenged reason
  ]

  -- The DPoP check of a bound token, and what follows it; the key is the token's.
  unfoldable pub prove :
      ℕ
      → GateRequest
      → Calls
      → Verified
      → Credential
      → Option String
      → Dict ℕ
      → GateOutcome × Dict ℕ
  prove now request wanted v credential none seen =
      (admit request wanted (verified v) credential.token, seen)
  prove now request wanted v credential (some jkt) seen = elim credential.scheme [
    | bearer ↦ (dpop_challenged, seen)
    | dpop ↦
        let check : ProofCheck = record {
          htm = request.method;
          htu = mcp_url;
          access_token = some credential.token;
          expected_jkt = some jkt;
        } in
        let (result, seen') = verify_proof jose now request.proof check seen in
        (
          elim result [
            | proved _ ↦ admit request wanted (verified v) credential.token
            | rejected _ _ ↦ dpop_challenged
          ],
          seen',
        )
  ]

  -- The gate after the rate limit, of a request with a credential and of one without.
  unfoldable pub pass :
      ℕ → GateRequest → Calls → Option Credential → VerifiedToken → Dict ℕ → GateOutcome × Dict ℕ
  pass now request wanted (some credential) (verified v) seen =
      prove now request wanted v credential v.cnf_jkt seen
  pass now request wanted (some credential) answer seen =
      (admit request wanted answer credential.token, seen)
  pass now request wanted none answer seen = (admit request wanted invalid_token [], seen)

  -- What the verifier says of the credential, for all the scopes that are wanted.
  unfoldable pub verdict_of : ℕ → GateRequest → Tables → VerifiedToken
  verdict_of now request t = elim request.credential [
    | none ↦ invalid_token
    | some credential ↦
        verify_access_token env now env.resource_uri (some credential.token)
          (protected_calls_in request.body).scopes t
  ]

  -- The bucket of the grant, or of the address where there is none.
  abbrev pub room_for : GateRequest → Option String → L → BucketResult × L
  room_for request none limits = per_address request.ip limits
  room_for request (some grant_id) limits = per_grant grant_id limits

  -- `gate`
  unfoldable pub gate : ℕ → GateRequest → Tables → GateState L → GateOutcome × GateState L
  gate now request t s =
      let wanted = protected_calls_in request.body in
      let answer = verdict_of now request t in
      let (room, limits) = room_for request (counted_grant answer) s.limits in
      elim room [
        | refused seconds ↦ (rate_limited seconds, record s { limits = limits })
        | allowed ↦
            (let (outcome, seen) = pass now request wanted request.credential answer s.seen in
              (outcome, record { limits = limits; seen = seen }))
      ]
