-- ===== src/Oauth/Consents/Sets.antt =====
-- server/src/oauth/consents.ts: a `Set` of scopes, as the list of its members in the order in which
-- they were added, and `sort()`, which compares code units.
use mcp_ui.Common.{
  ◌≡◌, refl, Bool, true, false, ◌||◌, inl, inr, List, [], ◌∷◌, ltb, ◌==◌, nat_eq, list_eq, units_eq,
  if◌then◌else◌, arith, Bool-cases,
}
use mcp_ui.Common.Rows.{any, All}
use mcp_ui.Normalize.{Text}
use mcp_ui.Oauth.Scope.{includes}

-- `set.add(w)`
abbrev pub add : Text → List Text → List Text
add w [] = w ∷ []
add w (v ∷ ws) = if v == w then v ∷ ws else v ∷ add w ws

-- The set with the words added one by one.
unfoldable pub union : List Text → List Text → List Text
union set [] = set
union set (w ∷ ws) = union (add w set) ws

-- Whether the first text comes before the second or is the same.
unfoldable pub text_leb : Text → Text → Bool
text_leb [] t = true
text_leb (c ∷ s) [] = false
text_leb (c ∷ s) (d ∷ t) =
    let rest = text_leb s t in if ltb c d then true else (if c == d then rest else false)

unfoldable pub insert : Text → List Text → List Text
insert w [] = w ∷ []
insert w (v ∷ ws) = let rest = insert w ws in if text_leb w v then w ∷ v ∷ ws else v ∷ rest

-- `[...set].sort()`
unfoldable pub sort : List Text → List Text
sort [] = []
sort (w ∷ ws) = insert w (sort ws)

pub includes-add : (w v : Text) (ws : List Text) → includes (add w ws) v ≡ (w == v) || includes ws v
unfolding any
includes-add w v [] = ground arith
includes-add w v (u ∷ ws) = elim (Bool-cases (u == w)) [
  | inl e ↦ rw e (same u e)
  | inr e ↦ rw e (ground (arith, includes-add w v ws))
]
  where
    same : (u : Text) → (u == w) ≡ true → includes (u ∷ ws) v ≡ (w == v) || includes (u ∷ ws) v
    same u e = rw ((units_eq u w).0 e) (ground arith)

pub includes-union :
    (v : Text) (set ws : List Text) → includes (union set ws) v ≡ includes ws v || includes set v
unfolding union any
includes-union v set [] = refl
includes-union v set (w ∷ ws) =
    ground (arith, includes-union v (add w set) ws, includes-add w v set)

includes-insert :
    (v w : Text) (ws : List Text) → includes (insert w ws) v ≡ (w == v) || includes ws v
unfolding insert any
includes-insert v w [] = ground arith
includes-insert v w (u ∷ ws) = ground (arith, includes-insert v w ws)

pub includes-sort : (v : Text) (ws : List Text) → includes (sort ws) v ≡ includes ws v
unfolding sort any
includes-sort v [] = refl
includes-sort v (w ∷ ws) = ground (arith, includes-insert v w (sort ws), includes-sort v ws)

module _ (P : Text → Type 0) where
  All-add : (w : Text) (ws : List Text) → P w → All P ws → All P (add w ws)
  All-add w [] p h = (p, tt)
  All-add w (v ∷ ws) p h = elim (Bool-cases (v == w)) [
    | inl e ↦ rw e h
    | inr e ↦ rw e (h.0, All-add w ws p h.1)
  ]

  pub All-union : (set ws : List Text) → All P set → All P ws → All P (union set ws)
  unfolding union
  All-union set [] h k = h
  All-union set (w ∷ ws) h k = All-union (add w set) ws (All-add w set k.0 h) k.1

  All-insert : (w : Text) (ws : List Text) → P w → All P ws → All P (insert w ws)
  unfolding insert
  All-insert w [] p h = (p, tt)
  All-insert w (v ∷ ws) p h = elim (Bool-cases (text_leb w v)) [
    | inl e ↦ rw e (p, h)
    | inr e ↦ rw e (h.0, All-insert w ws p h.1)
  ]

  pub All-sort : (ws : List Text) → All P ws → All P (sort ws)
  unfolding sort
  All-sort [] h = tt
  All-sort (w ∷ ws) h = All-insert w (sort ws) h.0 (All-sort ws h.1)
