-- ===== src/Internal/Cache.antt =====
-- server/src/exchange-client.ts and revocation.ts: an adapter's cache of internal tokens. The cache
-- is a list of entries with their keys; S is the state that the exchange and the call work on. The
-- two times of an attempt are read before and after the exchange; a revocation is an operation of
-- its own, done before or after a call.
use mcp_ui.Common.{
  ℕ, ◌+◌, ◌*◌, String, Bool, false, ◌&&◌, Option, none, some, List, ◌∷◌, ◌==◌, string_eq, ltb,
  if◌then◌else◌,
}
use mcp_ui.Common.Rows.{first, delete}
use mcp_ui.Normalize.{Text}
use mcp_ui.Errors.{Failure, app, unique_violation, other_error, internal_error, throw_code}
use mcp_ui.Exec.{Result, ok, err, Exec, ◌>>=◌}
use mcp_ui.Mcp.Policy.{Scope}
use mcp_ui.Oauth.Verify.{Verified}
use mcp_ui.Internal.Workload.{Workload}
use mcp_ui.Internal.Service.{scope_name}

abbrev pub reuse_margin_ms : ℕ
reuse_margin_ms = 10000

pub data RevocationEvent : Type 0 where
  grant_revoked account_revoked client_blocked : String → RevocationEvent

-- An entry under its key, a grant and a scope.
pub record CacheEntry (T : Type 0) : Type 0 where
  pub key_grant : String
  pub key_scope : String
  pub token : T
  pub expires_at : ℕ
  pub grant_id : String
  pub account_id : String
  pub client_id : String

-- The `VerifiedCaller`, with the credential it presented.
pub record CacheCaller : Type 0 where
  pub verified : Verified
  pub credential : Text

-- `error instanceof InternalTokenRefused`
unfoldable pub is_refused : Failure → Bool
is_refused (app e) = false
is_refused unique_violation = false
is_refused (other_error name) = name == "InternalTokenRefused"

module _ {T : Type 0} where
  unfoldable pub revokes : RevocationEvent → CacheEntry T → Bool
  revokes (grant_revoked id) entry = entry.grant_id == id
  revokes (account_revoked id) entry = entry.account_id == id
  revokes (client_blocked id) entry = entry.client_id == id

  -- What the client subscribes to the hub.
  unfoldable pub on_revocation : RevocationEvent → List (CacheEntry T) → List (CacheEntry T)
  on_revocation event = delete (revokes event)

  abbrev pub has_key : String → Scope → CacheEntry T → Bool
  has_key grant scope entry = entry.key_grant == grant && entry.key_scope == scope_name scope

  -- `this.cache.set` of an exchanged token.
  unfoldable pub remember :
      ℕ → CacheCaller → Scope → T → ℕ → List (CacheEntry T) → List (CacheEntry T)
  remember later caller scope token expires_in cache =
      record {
        key_grant = caller.verified.grant_id;
        key_scope = scope_name scope;
        token = token;
        expires_at = later + expires_in * 1000;
        grant_id = caller.verified.grant_id;
        account_id = caller.verified.account_id;
        client_id = caller.verified.client_id;
      }
      ∷ delete (has_key caller.verified.grant_id scope) cache

  -- `forget`
  unfoldable pub forget : CacheCaller → Scope → List (CacheEntry T) → List (CacheEntry T)
  forget caller scope = delete (has_key caller.verified.grant_id scope)

  -- The entry, where it has more than the margin left.
  abbrev pub fresh : ℕ → Option (CacheEntry T) → Option T
  fresh now none = none
  fresh now (some entry) =
      if ltb (now + reuse_margin_ms) entry.expires_at then some entry.token else none

module _ {S T : Type 0} where
  abbrev pub obtained :
      ℕ
      → CacheCaller
      → Scope
      → List (CacheEntry T)
      → Result (T × ℕ) × S
      → Result T × (List (CacheEntry T) × S)
  obtained later caller scope cache (ok (token, expires_in), s) =
      (ok token, (remember later caller scope token expires_in cache, s))
  obtained later caller scope cache (err e, s) = (err e, (cache, s))

  abbrev pub reused :
      (Text → Scope → Exec S (T × ℕ))
      → ℕ
      → CacheCaller
      → Scope
      → Option T
      → Exec (List (CacheEntry T) × S) T
  reused exchanger later caller scope (some token) (cache, s) = (ok token, (cache, s))
  reused exchanger later caller scope none (cache, s) =
      obtained later caller scope cache (exchanger caller.credential scope s)

  -- `tokenFor`
  unfoldable pub token_for :
      (Text → Scope → Exec S (T × ℕ))
      → ℕ × ℕ
      → CacheCaller
      → Scope
      → Exec (List (CacheEntry T) × S) T
  token_for exchanger (now, later) caller scope (cache, s) =
      reused exchanger later caller scope
        (fresh now (first (has_key caller.verified.grant_id scope) cache)) (cache, s)

  -- The call works on S alone.
  abbrev pub on_store {ℓ} : {A : Type ℓ} → Exec S A → Exec (List (CacheEntry T) × S) A
  on_store call (cache, s) = let (answer, left) = call s in (answer, (cache, left))

  -- A second refusal is reported as a fault of the server.
  abbrev pub reported {ℓ} :
      {A : Type ℓ} → Result A × (List (CacheEntry T) × S) → Result A × (List (CacheEntry T) × S)
  reported (ok a, left) = (ok a, left)
  reported (err e, left) = (if is_refused e then err (throw_code internal_error) else err e, left)

  abbrev pub forgotten : CacheCaller → Scope → List (CacheEntry T) × S → List (CacheEntry T) × S
  forgotten caller scope (cache, s) = (forget caller scope cache, s)

  module _ {ℓ} {A : Type ℓ} (workload : Workload) (exchanger : Text → Scope → Exec S (T × ℕ))
      (caller : CacheCaller) (scope : Scope) (call : T → Workload → Exec S A) where
    abbrev pub attempt : ℕ × ℕ → Exec (List (CacheEntry T) × S) A
    attempt times =
        token_for exchanger times caller scope >>= λ token. on_store (call token workload)

    abbrev pub recovered :
        ℕ × ℕ → Result A × (List (CacheEntry T) × S) → Result A × (List (CacheEntry T) × S)
    recovered times (ok a, left) = (ok a, left)
    recovered times (err e, left) =
        if is_refused e
        then reported (attempt times (forgotten caller scope left))
        else (err e, left)

    -- `run`, with the times of the call and of its retry.
    unfoldable pub run : ℕ × ℕ → ℕ × ℕ → Exec (List (CacheEntry T) × S) A
    run times again_times state = recovered again_times (attempt times state)
