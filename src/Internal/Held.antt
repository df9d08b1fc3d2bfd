-- ===== src/Internal/Held.antt =====
-- The cache of server/src/exchange-client.ts: what it holds, and when a token of it is used.
use mcp_ui.Common.{
  ℕ, Bool, false, Option, none, some, List, string_eq, Bool-cases, inl, inr, ◌≡◌, refl, subst, sym,
  ap, ◌∙◌,
}
use mcp_ui.Common.Rows.{first, delete, All}
use mcp_ui.Common.Rows.Laws.{All-delete, All-of, All-at, delete-All, first-none_of}
use mcp_ui.Normalize.{Text}
use mcp_ui.Errors.{Failure}
use mcp_ui.Exec.{Result, ok, err, Exec}
use mcp_ui.Mcp.Policy.{Scope}
use mcp_ui.Internal.Workload.{Workload}
use mcp_ui.Internal.Service.{internal_token_refused}
use mcp_ui.Internal.Cache.{
  CacheEntry, CacheCaller, grant_revoked, is_refused, revokes, on_revocation, has_key, remember,
  forget, fresh, obtained, reused, token_for, attempt, recovered, reported, run,
}

-- An entry stands under the grant it is for.
abbrev pub IsKeyed : {T : Type 0} → CacheEntry T → Type 0
IsKeyed entry = entry.key_grant ≡ entry.grant_id

module _ {S T : Type 0} (exchanger : Text → Scope → Exec S (T × ℕ)) where
  pub obtained-IsKeyed :
      (later : ℕ) (caller : CacheCaller) (scope : Scope) (cache : List (CacheEntry T))
      (got : Result (T × ℕ) × S)
      → All IsKeyed cache
      → All IsKeyed (obtained later caller scope cache got).1.0
  unfolding remember
  obtained-IsKeyed later caller scope cache (ok _, s) keyed =
      (refl, All-delete IsKeyed _ cache keyed)
  obtained-IsKeyed later caller scope cache (err _, s) keyed = keyed

  pub reused-IsKeyed :
      (later : ℕ) (caller : CacheCaller) (scope : Scope) (held : Option T)
      (cache : List (CacheEntry T)) (s : S)
      → All IsKeyed cache
      → All IsKeyed (reused exchanger later caller scope held (cache, s)).1.0
  reused-IsKeyed later caller scope (some _) cache s keyed = keyed
  reused-IsKeyed later caller scope none cache s keyed =
      obtained-IsKeyed later caller scope cache (exchanger caller.credential scope s) keyed

  -- Every entry of the cache stands under its own grant, also after tokenFor.
  pub token_for-IsKeyed :
      (times : ℕ × ℕ) (caller : CacheCaller) (scope : Scope) (cache : List (CacheEntry T)) (s : S)
      → All IsKeyed cache
      → All IsKeyed (token_for exchanger times caller scope (cache, s)).1.0
  unfolding token_for
  token_for-IsKeyed (now, later) caller scope cache s keyed =
      reused-IsKeyed later caller scope _ cache s keyed

  module _ (caller : CacheCaller) (scope : Scope) where
    -- No entry of the cache is left under a revoked grant.
    unheld :
        (cache : List (CacheEntry T))
        → All IsKeyed cache
        → first
            (has_key caller.verified.grant_id scope)
            (on_revocation (grant_revoked caller.verified.grant_id) cache)
          ≡ none
    unfolding on_revocation revokes
    unheld cache keyed = first-none_of _ _ (
        All-of _ _ (λ e held.
          let key =
            All-at IsKeyed (delete (revokes (grant_revoked caller.verified.grant_id)) cache)
              (All-delete IsKeyed _ cache keyed) held in
          let kept =
            All-at _ _ (delete-All (revokes (grant_revoked caller.verified.grant_id)) cache) held in
          rw (key, kept) refl))

    obtained-ok :
        (later : ℕ) (cache : List (CacheEntry T)) (got : Result (T × ℕ) × S) {token : T}
        → (obtained later caller scope cache got).0 ≡ ok token
        → (expires_in : ℕ) × (got.0 ≡ ok (token, expires_in))
    obtained-ok later cache (ok (token, expires_in), s) e = (expires_in, cc)
    obtained-ok later cache (err _, s) e = cc

    -- Once a grant is revoked, a token that tokenFor gives for it is one that the exchange gives
    -- then: none of the cache is used.
    pub revoked-unheld :
        (times : ℕ × ℕ) (cache : List (CacheEntry T)) (s : S) {token : T}
        → All IsKeyed cache
        → (token_for exchanger times caller scope
            (on_revocation (grant_revoked caller.verified.grant_id) cache, s)).0
          ≡ ok token
        → (expires_in : ℕ) × ((exchanger caller.credential scope s).0 ≡ ok (token, expires_in))
    unfolding token_for
    revoked-unheld (now, later) cache s {token} keyed given =
        obtained-ok later _ (exchanger caller.credential scope s) (
          subst
            (λ held.
              (reused exchanger later caller scope (fresh now held)
                (on_revocation (grant_revoked caller.verified.grant_id) cache, s)).0
              ≡ ok token)
            (unheld cache keyed) given)

first-delete {ℓ} : {R : Type ℓ} (p : R → Bool) (xs : List R) → first p (delete p xs) ≡ none
first-delete p xs = first-none_of p _ (delete-All p xs)

abbrev refusal {ℓ} : {A : Type ℓ} → Result A → Bool
refusal (ok a) = false
refusal (err e) = is_refused e

module _ {ℓ} {S T : Type 0} {A : Type ℓ} where
  reported-refusal : (got : Result A × (List (CacheEntry T) × S)) → refusal (reported got).0 ≡ false
  unfolding is_refused
  reported-refusal (ok a, left) = refl
  reported-refusal (err e, left) = elim (Bool-cases (is_refused e)) [
    | inl refused ↦ rw refused refl
    | inr other ↦ rw (other, other) refl
  ]

  module _ (workload : Workload) (exchanger : Text → Scope → Exec S (T × ℕ)) (caller : CacheCaller)
      (scope : Scope) (call : T → Workload → Exec S A) (times : ℕ × ℕ) where
    recovered-refusal :
        (got : Result A × (List (CacheEntry T) × S))
        → refusal (recovered workload exchanger caller scope call times got).0 ≡ false
    recovered-refusal (ok a, left) = refl
    recovered-refusal (err e, left) = elim (Bool-cases (is_refused e)) [
      | inl refused ↦ rw refused (reported-refusal _)
      | inr other ↦ rw (other, other) refl
    ]

    -- Whatever the exchange and the call answer, run never fails as a refused internal token: it
    -- answers what an attempt answers, or an internal error.
    pub run-refusal :
        (first_times : ℕ × ℕ) (state : List (CacheEntry T) × S) {e : Failure}
        → (run workload exchanger caller scope call first_times times state).0 ≡ err e
        → is_refused e ≡ false
    unfolding run
    run-refusal first_times state made =
        sym (ap refusal made)
        ∙ recovered-refusal (attempt workload exchanger caller scope call first_times state)

    -- Where the first internal token is refused, run exchanges afresh: where that gives a token
    -- with which the call succeeds, run answers what the call answers, and keeps the new token.
    pub run-forget :
        (first_times : ℕ × ℕ) (state : List (CacheEntry T) × S) {cache : List (CacheEntry T)}
        {s s' s'' : S} {token : T} {expires_in : ℕ} {a : A}
        → attempt workload exchanger caller scope call first_times state
          ≡ (err internal_token_refused, (cache, s))
        → exchanger caller.credential scope s ≡ (ok (token, expires_in), s')
        → call token workload s' ≡ (ok a, s'')
        → run workload exchanger caller scope call first_times times state ≡ (
          ok a,
          (remember times.1 caller scope token expires_in (forget caller scope cache), s''),
        )
    unfolding run token_for forget is_refused
    run-forget first_times state {cache} refused exchanged called =
        rw (refused, first-delete (has_key caller.verified.grant_id scope) cache, exchanged, called)
          refl
