-- ===== src/Common/Dict.antt =====
-- JavaScript's `Map` with string keys, as the list of its entries.
use mathlib.Core.Path.{◌≡◌, refl, sym, ◌∙◌, subst}
use mathlib.Core.Logic.{◌≢◌, inl, inr}
use mathlib.Core.Bool.{Bool, false≢true}
use mathlib.Core.Option.{Option, none, some}
use mathlib.Core.List.{List, [], ◌∷◌}
use native.Mathlib.Omega.{arith}
use Prim.Native.Nat.{ℕ, suc}
use Prim.Native.String.{String}
use mcp_ui.Common.Tests.{if◌then◌else◌, Bool-cases}
use mcp_ui.Common.Eq.{◌==◌, string_eq, text_eq, beq_ne}
use mcp_ui.Common.Rows.{All}
use mcp_ui.Common.Rows.Keys.{Distinct}

abbrev pub Dict {ℓ} : Type ℓ → Type ℓ
Dict V = List (String × V)

module _ {ℓ} {V : Type ℓ} where
  -- `m.get(k)`
  unfoldable pub get : String → Dict V → Option V
  get k [] = none
  get k ((j, v) ∷ m) = if j == k then some v else get k m

  -- `m.set(k, v)`
  unfoldable pub put : String → V → Dict V → Dict V
  put k v [] = (k, v) ∷ []
  put k v ((j, w) ∷ m) = if j == k then (k, v) ∷ m else (j, w) ∷ put k v m

  -- `m.size`
  unfoldable pub size : Dict V → ℕ
  size [] = 0
  size (e ∷ m) = suc (size m)

  -- `for (const [k, v] of m) if (test) m.delete(k)`
  unfoldable pub sweep : (V → Bool) → Dict V → Dict V
  sweep p [] = []
  sweep p ((j, v) ∷ m) = let rest = sweep p m in if p v then rest else (j, v) ∷ rest

  -- `m.delete(k)`
  unfoldable pub remove : String → Dict V → Dict V
  remove k [] = []
  remove k ((j, v) ∷ m) = let rest = remove k m in if j == k then rest else (j, v) ∷ rest

  -- A `Map` holds a key once.
  abbrev pub IsMap : Dict V → Type 0
  IsMap = Distinct (λ e. e.0)

  pub get-put :
      (k j : String) (v : V) (m : Dict V) → get j (put k v m) ≡ (if k == j then some v else get j m)
  unfolding get put
  get-put k j v [] = refl
  get-put k j v ((i, w) ∷ m) =
      ground (arith, text_eq k j, text_eq i k, text_eq i j, get-put k j v m)

  pub get-remove :
      (k j : String) (m : Dict V) → get j (remove k m) ≡ (if k == j then none else get j m)
  unfolding get remove
  get-remove k j [] = ground arith
  get-remove k j ((i, w) ∷ m) =
      ground (arith, text_eq k j, text_eq i k, text_eq i j, get-remove k j m)

  abbrev pub unless : (V → Bool) → Option V → Option V
  unless p none = none
  unless p (some v) = if p v then none else some v

  absent : (k : String) (m : Dict V) → All (λ e. e.0 ≢ k) m → get k m ≡ none
  unfolding get
  absent k [] h = refl
  absent k ((i, w) ∷ m) h = rw (beq_ne i k h.0) (absent k m h.1)

  All-sweep :
      (p : V → Bool) (k : String) (m : Dict V)
      → All (λ e. e.0 ≢ k) m
      → All (λ e. e.0 ≢ k) (sweep p m)
  unfolding sweep
  All-sweep p k [] h = tt
  All-sweep p k ((i, w) ∷ m) h = elim (Bool-cases (p w)) [
    | inl e ↦ rw e (All-sweep p k m h.1)
    | inr e ↦ rw e (h.0, All-sweep p k m h.1)
  ]

  pub get-sweep :
      (p : V → Bool) (j : String) (m : Dict V) → IsMap m → get j (sweep p m) ≡ unless p (get j m)
  unfolding get sweep
  get-sweep p j [] h = refl
  get-sweep p j ((i, w) ∷ m) h = elim (Bool-cases (i == j)) [
    | inl here ↦ elim (Bool-cases (p w)) [
      | inl gone ↦
          rw (here, gone)
            (absent j (sweep p m)
              (All-sweep p j m (subst (λ k. All (λ e. e.0 ≢ k) m) ((text_eq i j).0 here) h.0)))
      | inr stays ↦ rw (stays, here) (rw stays)
    ]
    | inr away ↦ elim (Bool-cases (p w)) [
      | inl gone ↦ rw (gone, away) (get-sweep p j m h.1)
      | inr stays ↦ rw (stays, away) (get-sweep p j m h.1)
    ]
  ]

  All-put :
      (k i : String) (v : V) (m : Dict V)
      → k ≢ i
      → All (λ e. e.0 ≢ i) m
      → All (λ e. e.0 ≢ i) (put k v m)
  unfolding put
  All-put k i v [] ne h = (ne, tt)
  All-put k i v ((j, w) ∷ m) ne h = elim (Bool-cases (j == k)) [
    | inl e ↦ rw e (ne, h.1)
    | inr e ↦ rw e (h.0, All-put k i v m ne h.1)
  ]

  pub put-IsMap : (k : String) (v : V) (m : Dict V) → IsMap m → IsMap (put k v m)
  unfolding put
  put-IsMap k v [] h = (tt, tt)
  put-IsMap k v ((j, w) ∷ m) h = elim (Bool-cases (j == k)) [
    | inl e ↦ rw e (subst (λ i. All (λ e. e.0 ≢ i) m) ((text_eq j k).0 e) h.0, h.1)
    | inr e ↦ rw e (
      All-put k j v m (λ same. false≢true (sym e ∙ (text_eq j k).1 (sym same))) h.0,
      put-IsMap k v m h.1,
    )
  ]

  pub sweep-IsMap : (p : V → Bool) (m : Dict V) → IsMap m → IsMap (sweep p m)
  unfolding sweep
  sweep-IsMap p [] h = tt
  sweep-IsMap p ((j, w) ∷ m) h = elim (Bool-cases (p w)) [
    | inl e ↦ rw e (sweep-IsMap p m h.1)
    | inr e ↦ rw e (All-sweep p j m h.0, sweep-IsMap p m h.1)
  ]
