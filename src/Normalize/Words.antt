-- ===== src/Normalize/Words.antt =====
-- Tidying a name drops white space and nothing else.
use mathlib.Core.List.{reverse, reverse-cons, reverse-reverse, reverse-append}
use mathlib.Core.Path.{◌≡⟨◌⟩◌, ◌∎, ap₂}
use mcp_ui.Common.{
  ℕ, ◌≡◌, refl, sym, ap, ◌∙◌, Bool, true, false, not, [], ◌∷◌, ◌++◌, Bool-cases, inl, inr,
}
use mcp_ui.Normalize.{Text, is_space, trim_start, trim, squeeze, display_device_name}
use mcp_ui.Common.Rows.{select}
use mcp_ui.Normalize.Laws.{space_is_space}

-- The units of a text that are not white space, in order.
abbrev pub letters : Text → Text
letters = select (λ c. not (is_space c))

letters-append : (s t : Text) → letters (s ++ t) ≡ letters s ++ letters t
unfolding select
letters-append [] t = refl
letters-append (c ∷ s) t = elim (Bool-cases (is_space c)) [
  | inl e ↦ rw e (letters-append s t)
  | inr e ↦ rw e (ap (◌∷◌ c) (letters-append s t))
]

reverse-letters_one : (c : ℕ) → reverse (letters (c ∷ [])) ≡ letters (c ∷ [])
unfolding select
reverse-letters_one c = elim (Bool-cases (is_space c)) [ inl e ↦ rw e | inr e ↦ rw e ]

letters-reverse : (s : Text) → letters (reverse s) ≡ reverse (letters s)
letters-reverse [] = unfold select in refl
letters-reverse (c ∷ s) =
    letters (reverse (c ∷ s))
    ≡⟨ ap letters (reverse-cons c s) ⟩ letters (reverse s ++ c ∷ [])
    ≡⟨ letters-append (reverse s) (c ∷ []) ⟩ letters (reverse s) ++ letters (c ∷ [])
    ≡⟨ ap₂ (◌++◌) (letters-reverse s) (sym (reverse-letters_one c)) ⟩
      reverse (letters s) ++ reverse (letters (c ∷ []))
    ≡⟨ sym (reverse-append (letters (c ∷ [])) (letters s)) ⟩ reverse (letters (c ∷ []) ++ letters s)
    ≡⟨ ap reverse (sym (letters-append (c ∷ []) s)) ⟩ reverse (letters (c ∷ s)) ∎

letters-trim_start : (s : Text) → letters (trim_start s) ≡ letters s
unfolding trim_start select
letters-trim_start [] = refl
letters-trim_start (c ∷ s) = elim (Bool-cases (is_space c)) [
  | inl e ↦ rw e (letters-trim_start s)
  | inr e ↦ rw e (rw e refl)
]

letters-trim : (s : Text) → letters (trim s) ≡ letters s
unfolding trim
letters-trim s =
    rw (letters-reverse, letters-trim_start, letters-reverse, reverse-reverse)
      (letters-trim_start s)

letters-squeeze : (b : Bool) (s : Text) → letters (squeeze b s) ≡ letters s
unfolding squeeze select
letters-squeeze b [] = refl
letters-squeeze true (c ∷ s) = elim (Bool-cases (is_space c)) [
  | inl e ↦ rw e (letters-squeeze true s)
  | inr e ↦ rw e (rw e (ap (◌∷◌ c) (letters-squeeze false s)))
]
letters-squeeze false (c ∷ s) = elim (Bool-cases (is_space c)) [
  | inl e ↦ rw e (rw space_is_space (letters-squeeze true s))
  | inr e ↦ rw e (rw e (ap (◌∷◌ c) (letters-squeeze false s)))
]

-- The display form of a name has the same units that are not white space, in the same order, as
-- what was typed.
pub letters-display : (raw : Text) → letters (display_device_name raw) ≡ letters raw
unfolding display_device_name
letters-display raw = letters-squeeze false (trim raw) ∙ letters-trim raw
