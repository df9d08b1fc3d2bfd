-- ===== src/Common/Rows/Keys.antt =====
-- UNIQUE constraints: no two rows share a key.
use mathlib.Core.Path.{◌≡◌, refl, sym, ap, ◌∙◌}
use mathlib.Core.Logic.{◌≢◌, inl, inr}
use mathlib.Core.Bool.{Bool, true, false}
use mathlib.Core.Option.{some, none}
use mathlib.Core.List.{List, [], ◌∷◌, Memᴰ}
use mcp_ui.Common.Tests.{Bool-cases, Option-cases, if◌then◌else◌}
use mcp_ui.Common.Rows.{first, update, delete, All}
use mcp_ui.Common.Rows.Laws.{first-some, first-none, All-at, All-update, All-delete}

module _ {ℓ κ} {R : Type ℓ} {K : Type κ} (key : R → K) where
  abbrev pub Distinct : List R → Type κ
  Distinct [] = Unit
  Distinct (x ∷ xs) = All (λ y. key y ≢ key x) xs × Distinct xs

  pub Distinct-update :
      (p : R → Bool) (f : R → R) (xs : List R)
      → ((x : R) → key (f x) ≡ key x)
      → Distinct xs
      → Distinct (update p f xs)
  unfolding update
  Distinct-update p f [] same h = tt
  Distinct-update p f (x ∷ xs) same h =
      let kept = λ (k : K) (fresh : All (λ y. key y ≢ k) xs).
        All-update (λ y. key y ≢ k) p f xs (λ y _ ne. λ e. ne (sym (same y) ∙ e)) fresh in
      elim (Bool-cases (p x)) [
        | inl e ↦ rw (e, same x) (kept (key x) h.0, Distinct-update p f xs same h.1)
        | inr e ↦ rw e (kept (key x) h.0, Distinct-update p f xs same h.1)
      ]

  pub Distinct-delete : (p : R → Bool) (xs : List R) → Distinct xs → Distinct (delete p xs)
  unfolding delete
  Distinct-delete p [] h = tt
  Distinct-delete p (x ∷ xs) h = elim (Bool-cases (p x)) [
    | inl e ↦ rw e (Distinct-delete p xs h.1)
    | inr e ↦ rw e (All-delete (λ y. key y ≢ key x) p xs h.0, Distinct-delete p xs h.1)
  ]

  -- The key of a row names the row.
  pub Distinct-eq :
      (xs : List R) {x y : R} → Distinct xs → Memᴰ x xs → Memᴰ y xs → key x ≡ key y → x ≡ y
  Distinct-eq [] h m n same = elim m [ ]
  Distinct-eq (z ∷ xs) h (Memᴰ.head e) (Memᴰ.head f) same = e ∙ sym f
  Distinct-eq (z ∷ xs) h (Memᴰ.tail m) (Memᴰ.tail n) same = Distinct-eq xs h.1 m n same
  Distinct-eq (z ∷ xs) h (Memᴰ.head e) (Memᴰ.tail n) same =
      absurd (All-at (λ w. key w ≢ key z) xs h.0 n (rw (← e) (sym same)))
  Distinct-eq (z ∷ xs) h (Memᴰ.tail m) (Memᴰ.head f) same =
      absurd (All-at (λ w. key w ≢ key z) xs h.0 m (rw (← f) same))

module _ {ℓ} {R : Type ℓ} where
  -- Tests that agree on the rows update the same rows.
  pub update_congr :
      (p q : R → Bool) (f : R → R) (xs : List R)
      → ((x : R) → Memᴰ x xs → p x ≡ q x)
      → update p f xs ≡ update q f xs
  unfolding update
  update_congr p q f [] h = refl
  update_congr p q f (x ∷ xs) h =
      rw (h x (Memᴰ.head refl))
        (ap (◌∷◌ (if q x then f x else x)) (update_congr p q f xs (λ y m. h y (Memᴰ.tail m))))

  -- Where a test can pick one row only, the search gives that row if the test holds of it.
  pub first_at :
      (p : R → Bool) (xs : List R) {x : R}
      → Memᴰ x xs
      → ((y : R) → Memᴰ y xs → p y ≡ true → y ≡ x)
      → first p xs ≡ (if p x then some x else none)
  first_at p xs {x} m h = elim (Option-cases (first p xs)) [
    | inl e ↦ rw (e, All-at (λ y. p y ≡ false) xs (first-none p xs e) m)
    | inr (y, e) ↦
        let (t, n) = first-some p xs e in let same : y ≡ x = h y n t in rw (e, same, ← same, t)
  ]
