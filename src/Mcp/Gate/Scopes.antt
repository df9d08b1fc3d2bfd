-- ===== src/Mcp/Gate/Scopes.antt =====
-- The scopes that the gate collects from a body.
use mcp_ui.Common.{
  ◌≡◌, refl, subst, units_eq, String, true, Option, none, some, List, [], ◌∷◌, ◌++◌, ◌==◌, list_eq,
  nat_eq, Bool-cases, Option-cases, inl, inr, arith, Memᴰ, beq_self,
}
use mcp_ui.Common.Rows.{All, any}
use mcp_ui.Normalize.{Text}
use mcp_ui.Oauth.Scope.{includes}
use mcp_ui.Mcp.Policy.{Scope, ToolPolicy, policy_for, scope_text}
use mcp_ui.Mcp.Gate.{Message, Calls, add_scope, protect, protect_all, tool_called}

-- A scope that was collected stays, and the scope of each call is collected.
any-append : (xs : List Text) (s w : Text) → includes xs w ≡ true → includes (xs ++ s ∷ []) w ≡ true
unfolding any
any-append [] s w e = cc
any-append (x ∷ xs) s w e = ground (arith, any-append xs s w)

any-last : (xs : List Text) (s : Text) → includes (xs ++ s ∷ []) s ≡ true
unfolding any
any-last [] s = rw (beq_self s) refl
any-last (x ∷ xs) s = ground (arith, any-last xs s)

add_scope-keep :
    (xs : List Text) (s w : Text) → includes xs w ≡ true → includes (add_scope xs s) w ≡ true
unfolding add_scope
add_scope-keep xs s w e = elim (Bool-cases (any (λ x. x == s) xs)) [
  | inl has ↦ rw has e
  | inr lacks ↦ rw lacks (any-append xs s w e)
]

add_scope-has : (xs : List Text) (s : Text) → includes (add_scope xs s) s ≡ true
unfolding add_scope
add_scope-has xs s = elim (Bool-cases (any (λ x. x == s) xs)) [
  | inl has ↦ rw has has
  | inr lacks ↦ rw lacks (any-last xs s)
]

protect-keep :
    (name : String) (o : Option ToolPolicy) (calls : Calls) (w : Text)
    → includes calls.scopes w ≡ true
    → includes (protect name o calls).scopes w ≡ true
unfolding protect
protect-keep name none calls w e = e
protect-keep name (some p) calls w e = elim (Option-cases p.scope) [
  | inl open' ↦ rw open' e
  | inr (s, at) ↦ rw at (add_scope-keep calls.scopes (scope_text s) w e)
]

protect_all-keep :
    (ms : List Message) (calls : Calls) (w : Text)
    → includes calls.scopes w ≡ true
    → includes (protect_all ms calls).scopes w ≡ true
unfolding protect_all
protect_all-keep [] calls w e = e
protect_all-keep (m ∷ ms) calls w e = elim (Option-cases (tool_called m)) [
  | inl other ↦ rw (other, protect_all) (protect_all-keep ms calls w e)
  | inr (name, at) ↦
      rw (at, protect_all)
        (protect_all-keep ms (protect name (policy_for name) calls) w
          (protect-keep name (policy_for name) calls w e))
]

pub protect_all-has :
    (ms : List Message) (calls : Calls) (m : Message) (name : String) (p : ToolPolicy) (s : Scope)
    → Memᴰ m ms
    → tool_called m ≡ some name
    → policy_for name ≡ some p
    → p.scope ≡ some s
    → includes (protect_all ms calls).scopes (scope_text s) ≡ true
unfolding protect_all protect
protect_all-has [] calls m name p s m' called at scoped = elim m' [ ]
protect_all-has (x ∷ ms) calls m name p s (Memᴰ.head e) called at scoped = rw (← e) (
    rw (called, protect_all, at)
      (rw scoped
        (protect_all-keep ms _ (scope_text s) (add_scope-has calls.scopes (scope_text s)))))
protect_all-has (x ∷ ms) calls m name p s (Memᴰ.tail m') called at scoped =
    elim (Option-cases (tool_called x)) [
      | inl other ↦
          rw (other, protect_all) (protect_all-has ms calls m name p s m' called at scoped)
      | inr (n, there) ↦
          rw (there, protect_all) (protect_all-has ms _ m name p s m' called at scoped)
    ]

-- What each wanted scope has is had for any member.
pub includes-All :
    (required granted : List Text) (w : Text)
    → All (λ s. includes granted s ≡ true) required
    → includes required w ≡ true
    → includes granted w ≡ true
unfolding any
includes-All [] granted w h e = cc
includes-All (r ∷ required) granted w h e = elim (Bool-cases (r == w)) [
  | inl same ↦ subst (λ x. includes granted x ≡ true) ((units_eq r w).0 same) h.0
  | inr other ↦ includes-All required granted w h.1 (rw other at e)
]
