-- ===== src/Oauth/Prune.antt =====
-- server/src/oauth/store.ts, `pruneExpiredOAuth`. Passkey challenges are not modelled.
use mcp_ui.Common.{
  ℕ, ◌≡◌, refl, String, Bool, true, false, ◌&&◌, Option, none, some, List, [], ◌∷◌, leb, ltb, arith,
  Bool-cases, inl, inr,
}
use mcp_ui.Common.Rows.{first, delete}
use mcp_ui.Normalize.{Text}
use mcp_ui.Oauth.Types.{AccessRow, Tables, Env, hash_of}
use mcp_ui.Oauth.Grants.{grant_live}
use mcp_ui.Oauth.Verify.{verify_access_token}
use mcp_ui.Oauth.Pushed.{PushedRow}

unfoldable pub prune_expired_oauth : ℕ → Tables → List PushedRow → Tables × List PushedRow
prune_expired_oauth now t pushed = (
  record t {
    access_tokens = delete (λ a. leb a.expires_at now) t.access_tokens;
    refresh_tokens = delete (λ r. leb r.expires_at now) t.refresh_tokens;
    codes = delete (λ c. leb c.expires_at now) t.codes;
    pending = delete (λ p. leb p.expires_at now) t.pending;
  },
  delete (λ p. leb p.expires_at now) pushed,
)

-- A search that skips what was deleted finds what it found before.
first-delete {ℓ} :
    {R : Type ℓ} (p q : R → Bool) (rows : List R)
    → ((r : R) → q r ≡ true → p r ≡ false)
    → first p (delete q rows) ≡ first p rows
unfolding first delete
first-delete p q [] skip = refl
first-delete p q (r ∷ rows) skip = elim (Bool-cases (q r)) [
  | inl out ↦ rw (out, skip r out) (first-delete p q rows skip)
  | inr kept ↦ elim (Bool-cases (p r)) [
    | inl here ↦ rw (kept, here)
    | inr other ↦ rw (kept, other) (first-delete p q rows skip)
  ]
]

-- Pruning is never seen by the verifier: at the time of the pruning or later, every access token is
-- answered as if nothing had been deleted.
pub verify-prune :
    (env : Env) (now later : ℕ) (audience : String) (token : Option Text) (required : List Text)
    (t : Tables) (pushed : List PushedRow)
    → leb now later ≡ true
    → verify_access_token env later audience token required (prune_expired_oauth now t pushed).0
      ≡ verify_access_token env later audience token required t
unfolding verify_access_token prune_expired_oauth
verify-prune env now later audience none required t pushed le = refl
verify-prune env now later audience (some token) required t pushed le =
    rw
      (first-delete
        (λ a. hash_of env token a.token_hash && (ltb later a.expires_at && grant_live t a.grant_id))
        (λ a. leb a.expires_at now) t.access_tokens expired)
      refl
  where
    expired :
        (a : AccessRow)
        → leb a.expires_at now ≡ true
        → (hash_of env token a.token_hash && (ltb later a.expires_at && grant_live t a.grant_id))
          ≡ false
    expired a e = ground arith
