-- ===== src/Common/Rows/Laws.antt =====
-- What the statements keep and return.
use mathlib.Core.Path.{◌≡◌, refl, sym}
use mathlib.Core.Logic.{inl, inr}
use mathlib.Core.Bool.{Bool, true, false, ◌&&◌}
use mathlib.Core.Option.{none, some}
use mathlib.Core.List.{List, [], ◌∷◌, Memᴰ}
use native.Mathlib.Omega.{arith}
use mcp_ui.Common.Tests.{Bool-cases, if◌then◌else◌}
use mcp_ui.Common.Rows.{select, first, count, update, delete, any, every, All}

module _ {ℓ κ} {R : Type ℓ} (P : R → Type κ) where
  pub All-at : (xs : List R) {x : R} → All P xs → Memᴰ x xs → P x
  All-at [] h m = elim m [ ]
  All-at (y ∷ xs) h (Memᴰ.head e) = rw e h.0
  All-at (y ∷ xs) h (Memᴰ.tail m) = All-at xs h.1 m

  pub All-of : (xs : List R) → ((x : R) → Memᴰ x xs → P x) → All P xs
  All-of [] h = tt
  All-of (x ∷ xs) h = (h x (Memᴰ.head refl), All-of xs (λ y m. h y (Memᴰ.tail m)))

  pub All-update :
      (p : R → Bool) (f : R → R) (xs : List R)
      → ((x : R) → p x ≡ true → P x → P (f x))
      → All P xs
      → All P (update p f xs)
  unfolding update
  All-update p f [] step h = tt
  All-update p f (x ∷ xs) step h = elim (Bool-cases (p x)) [
    | inl e ↦ (rw e (step x e h.0), All-update p f xs step h.1)
    | inr e ↦ (rw e h.0, All-update p f xs step h.1)
  ]

  -- What an UPDATE leaves: the rows that it changed and those that it did not.
  pub All-updated :
      (p : R → Bool) (f : R → R) (xs : List R)
      → ((x : R) → p x ≡ true → P (f x))
      → ((x : R) → p x ≡ false → P x)
      → All P (update p f xs)
  unfolding update
  All-updated p f [] hit miss = tt
  All-updated p f (x ∷ xs) hit miss = elim (Bool-cases (p x)) [
    | inl e ↦ (rw e (hit x e), All-updated p f xs hit miss)
    | inr e ↦ (rw e (miss x e), All-updated p f xs hit miss)
  ]

  pub All-delete : (p : R → Bool) (xs : List R) → All P xs → All P (delete p xs)
  unfolding delete
  All-delete p [] h = tt
  All-delete p (x ∷ xs) h = elim (Bool-cases (p x)) [
    | inl e ↦ rw e (All-delete p xs h.1)
    | inr e ↦ rw e (h.0, All-delete p xs h.1)
  ]

  pub All-select : (p : R → Bool) (xs : List R) → All P xs → All P (select p xs)
  unfolding select
  All-select p [] h = tt
  All-select p (x ∷ xs) h = elim (Bool-cases (p x)) [
    | inl e ↦ rw e (h.0, All-select p xs h.1)
    | inr e ↦ rw e (All-select p xs h.1)
  ]

module _ {ℓ} {R : Type ℓ} where
  -- An UPDATE that leads from one property of the rows to another.
  pub All-across {κ} :
      (P Q : R → Type κ) (p : R → Bool) (f : R → R) (xs : List R)
      → ((x : R) → p x ≡ true → P x → Q (f x))
      → ((x : R) → p x ≡ false → P x → Q x)
      → All P xs
      → All Q (update p f xs)
  unfolding update
  All-across P Q p f [] hit miss h = tt
  All-across P Q p f (x ∷ xs) hit miss h = elim (Bool-cases (p x)) [
    | inl e ↦ (rw e (hit x e h.0), All-across P Q p f xs hit miss h.1)
    | inr e ↦ (rw e (miss x e h.0), All-across P Q p f xs hit miss h.1)
  ]

  pub any-Mem : (p : R → Bool) (xs : List R) {x : R} → Memᴰ x xs → p x ≡ true → any p xs ≡ true
  unfolding any
  any-Mem p [] m e = elim m [ ]
  any-Mem p (y ∷ xs) (Memᴰ.head same) e = rw (← same, e) refl
  any-Mem p (y ∷ xs) (Memᴰ.tail m) e = elim (Bool-cases (p y)) [
    | inl here ↦ rw here refl
    | inr there ↦ rw there (any-Mem p xs m e)
  ]

  pub Mem-select :
      (p : R → Bool) (xs : List R) {x : R} → Memᴰ x xs → p x ≡ true → Memᴰ x (select p xs)
  unfolding select
  Mem-select p [] m e = elim m [ ]
  Mem-select p (y ∷ xs) (Memᴰ.head same) e = rw (← same, e) (Memᴰ.head refl)
  Mem-select p (y ∷ xs) (Memᴰ.tail m) e = elim (Bool-cases (p y)) [
    | inl here ↦ rw here (Memᴰ.tail (Mem-select p xs m e))
    | inr there ↦ rw there (Mem-select p xs m e)
  ]

module _ {ℓ} {R : Type ℓ} (p : R → Bool) where
  pub first-some : (xs : List R) {x : R} → first p xs ≡ some x → (p x ≡ true) × Memᴰ x xs
  unfolding first
  first-some [] e = cc
  first-some (y ∷ xs) {x} e = elim (Bool-cases (p y)) [
    | inl t ↦ let same : y ≡ x = ground arith in (rw (← same) t, Memᴰ.head (sym same))
    | inr t ↦ let (holds, m) = first-some xs {x = x} (rw t at e) in (holds, Memᴰ.tail m)
  ]

  pub first-none : (xs : List R) → first p xs ≡ none → All (λ x. p x ≡ false) xs
  unfolding first
  first-none [] e = tt
  first-none (y ∷ xs) e = elim (Bool-cases (p y)) [
    | inl t ↦ absurd (ground arith)
    | inr t ↦ (t, first-none xs (rw t at e))
  ]

  pub first-none_of : (xs : List R) → All (λ x. p x ≡ false) xs → first p xs ≡ none
  unfolding first
  first-none_of [] h = refl
  first-none_of (y ∷ xs) h = rw h.0 (first-none_of xs h.1)

  pub select-All : (xs : List R) → All (λ x. p x ≡ true) (select p xs)
  unfolding select
  select-All [] = tt
  select-All (x ∷ xs) = elim (Bool-cases (p x)) [
    | inl e ↦ rw e (e, select-All xs)
    | inr e ↦ rw e (select-All xs)
  ]

  pub delete-All : (xs : List R) → All (λ x. p x ≡ false) (delete p xs)
  unfolding delete
  delete-All [] = tt
  delete-All (x ∷ xs) = elim (Bool-cases (p x)) [
    | inl e ↦ rw e (delete-All xs)
    | inr e ↦ rw e (e, delete-All xs)
  ]

  pub every-All : (xs : List R) → every p xs ≡ true → All (λ x. p x ≡ true) xs
  unfolding every
  every-All [] e = tt
  every-All (x ∷ xs) e = elim (Bool-cases (p x)) [
    | inl t ↦ (t, every-All xs (rw t at e))
    | inr t ↦ absurd (ground arith)
  ]

  pub every_of_All : (xs : List R) → All (λ x. p x ≡ true) xs → every p xs ≡ true
  unfolding every
  every_of_All [] h = refl
  every_of_All (x ∷ xs) h = rw h.0 (every_of_All xs h.1)

  pub any-none : (xs : List R) → any p xs ≡ false → All (λ x. p x ≡ false) xs
  unfolding any
  any-none [] e = tt
  any-none (x ∷ xs) e = elim (Bool-cases (p x)) [
    | inl t ↦ absurd (ground arith)
    | inr t ↦ (t, any-none xs (rw t at e))
  ]

  -- An UPDATE whose WHERE matches no row changes nothing.
  pub update-none : (f : R → R) (xs : List R) → first p xs ≡ none → update p f xs ≡ xs
  unfolding first update
  update-none f [] e = refl
  update-none f (x ∷ xs) e = elim (Bool-cases (p x)) [
    | inl t ↦ absurd (ground arith)
    | inr t ↦ rw (t, update-none f xs (rw t at e))
  ]

  module _ (q : R → Bool) (f : R → R) where
    -- Rows that the UPDATE moves neither into nor out of the test are counted as before.
    pub count-update :
        (xs : List R)
        → ((x : R) → p x ≡ true → q (f x) ≡ q x)
        → count q (update p f xs) ≡ count q xs
    unfolding count update
    count-update [] h = refl
    count-update (x ∷ xs) h = elim (Bool-cases (p x)) [
      | inl t ↦ rw (t, h x t, count-update xs h)
      | inr t ↦ rw (t, count-update xs h)
    ]

    -- A search after an UPDATE that keeps the searched test.
    pub first-update :
        (xs : List R)
        → ((x : R) → p x ≡ true → q (f x) ≡ q x)
        → first q (update p f xs)
          ≡ elim (first q xs) [ none ↦ none | some x ↦ some (if p x then f x else x) ]
    unfolding first update
    first-update [] h = refl
    first-update (x ∷ xs) h = elim (Bool-cases (p x)) [
      | inl t ↦ elim (Bool-cases (q x)) [
        | inl u ↦ rw (t, h x t, u, t)
        | inr u ↦ rw (t, h x t, u, first-update xs h)
      ]
      | inr t ↦ elim (Bool-cases (q x)) [
        | inl u ↦ rw (t, u, t)
        | inr u ↦ rw (t, u, first-update xs h)
      ]
    ]

    -- An UPDATE of no row that the test picks leaves the selection as it was.
    pub select-update_ne :
        (xs : List R)
        → ((x : R) → Memᴰ x xs → p x ≡ true → (q x ≡ false) × (q (f x) ≡ false))
        → select q (update p f xs) ≡ select q xs
    unfolding select update
    select-update_ne [] h = refl
    select-update_ne (x ∷ xs) h =
        let later = select-update_ne xs (λ y m. h y (Memᴰ.tail m)) in
        elim (Bool-cases (p x)) [
          | inl t ↦ rw (t, (h x (Memᴰ.head refl) t).0, (h x (Memᴰ.head refl) t).1) later
          | inr t ↦ rw (t, later)
        ]

-- A search among the selected rows is a search for both tests.
pub first-select {ℓ} :
    {R : Type ℓ} (p q : R → Bool) (xs : List R) → first p (select q xs) ≡ first (λ x. p x && q x) xs
unfolding first select
first-select p q [] = refl
first-select p q (x ∷ xs) = elim (Bool-cases (q x)) [
  | inl e ↦ rw e (elim (Bool-cases (p x)) [ inl f ↦ rw f | inr f ↦ rw f (first-select p q xs) ])
  | inr e ↦ rw e (elim (Bool-cases (p x)) [
    | inl f ↦ rw f (first-select p q xs)
    | inr f ↦ rw f (first-select p q xs)
  ])
]
