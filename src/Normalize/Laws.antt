-- ===== src/Normalize/Laws.antt =====
-- Names are tidy, tidying twice is tidying once, and nothing but white space is dropped.
use mathlib.Core.List.{reverse, reverse-cons, reverse-reverse, reverse-append}
use mcp_ui.Common.{ℕ, ◌≡◌, refl, ap, Bool, true, false, [], ◌∷◌, ◌++◌, Bool-cases, inl, inr}
use mcp_ui.Normalize.{
  normalize_username, Text, is_space, trim_start, trim, squeeze, collapse_whitespace,
  display_device_name, Unicode, normalize_device_name,
}

-- The text does not begin with white space.
abbrev pub NoLead : Text → Type 0
NoLead [] = Unit
NoLead (c ∷ s) = is_space c ≡ false

-- Every white space is one U+0020 with no other behind it.
abbrev pub SingleSpaces : Text → Type 0
SingleSpaces [] = Unit
SingleSpaces (c ∷ s) = (is_space c ≡ true → (c ≡ 32) × NoLead s) × SingleSpaces s

pub record IsTidy (s : Text) : Type 0 where
  pub no_lead : NoLead s
  pub no_trail : NoLead (reverse s)
  pub single : SingleSpaces s

trim_start-NoLead : (s : Text) → NoLead (trim_start s)
unfolding trim_start
trim_start-NoLead [] = tt
trim_start-NoLead (c ∷ s) = elim (Bool-cases (is_space c)) [
  | inl e ↦ rw e (trim_start-NoLead s)
  | inr e ↦ rw e e
]

trim_start_of_NoLead : (s : Text) → NoLead s → trim_start s ≡ s
unfolding trim_start
trim_start_of_NoLead [] h = refl
trim_start_of_NoLead (c ∷ s) h = rw h

trim_start-concat :
    (s : Text) (c : ℕ) → is_space c ≡ false → trim_start (s ++ c ∷ []) ≡ trim_start s ++ c ∷ []
unfolding trim_start
trim_start-concat [] c h = rw h
trim_start-concat (d ∷ s) c h = elim (Bool-cases (is_space d)) [
  | inl e ↦ rw e (trim_start-concat s c h)
  | inr e ↦ rw e
]

trim-NoLead : (s : Text) → NoLead (trim s)
unfolding trim
trim-NoLead s = at (trim_start s) (trim_start-NoLead s)
  where
    at : (t : Text) → NoLead t → NoLead (reverse (trim_start (reverse t)))
    at [] h = unfold trim_start in tt
    at (c ∷ t) h = rw (reverse-cons, trim_start-concat (reverse t) c h, reverse-append) h

trim-NoTrail : (s : Text) → NoLead (reverse (trim s))
unfolding trim
trim-NoTrail s = rw reverse-reverse (trim_start-NoLead (reverse (trim_start s)))

trim_of_NoLead : (s : Text) → NoLead s → NoLead (reverse s) → trim s ≡ s
unfolding trim
trim_of_NoLead s h k =
    rw (trim_start_of_NoLead s h, trim_start_of_NoLead (reverse s) k) (reverse-reverse s)

-- Trimming twice is trimming once.
pub trim-trim : (s : Text) → trim (trim s) ≡ trim s
trim-trim s = trim_of_NoLead (trim s) (trim-NoLead s) (trim-NoTrail s)

-- White space at the ends of a username does not count.
pub normalize_username-trim :
    (u : Unicode) (s : Text) → normalize_username u (trim s) ≡ normalize_username u s
unfolding normalize_username
normalize_username-trim u s = ap (λ t. u.to_lower_case (u.nfkc t)) (trim-trim s)

squeeze-NoLead : (s : Text) → NoLead s → NoLead (squeeze false s)
unfolding squeeze
squeeze-NoLead [] h = tt
squeeze-NoLead (c ∷ s) h = rw h h

squeeze-true-NoLead : (s : Text) → NoLead (squeeze true s)
unfolding squeeze
squeeze-true-NoLead [] = tt
squeeze-true-NoLead (c ∷ s) = elim (Bool-cases (is_space c)) [
  | inl e ↦ rw e (squeeze-true-NoLead s)
  | inr e ↦ rw e e
]

squeeze-concat :
    (b : Bool) (s : Text) (c : ℕ)
    → is_space c ≡ false
    → squeeze b (s ++ c ∷ []) ≡ squeeze b s ++ c ∷ []
unfolding squeeze
squeeze-concat b [] c h = rw h
squeeze-concat true (d ∷ s) c h = elim (Bool-cases (is_space d)) [
  | inl e ↦ rw e (squeeze-concat true s c h)
  | inr e ↦ rw e (ap (◌∷◌ d) (squeeze-concat false s c h))
]
squeeze-concat false (d ∷ s) c h = elim (Bool-cases (is_space d)) [
  | inl e ↦ rw e (ap (◌∷◌ 32) (squeeze-concat true s c h))
  | inr e ↦ rw e (ap (◌∷◌ d) (squeeze-concat false s c h))
]

squeeze-NoTrail : (s : Text) → NoLead (reverse s) → NoLead (reverse (squeeze false s))
squeeze-NoTrail s h = rw (← reverse-reverse s) (at (reverse s) h)
  where
    at : (r : Text) → NoLead r → NoLead (reverse (squeeze false (reverse r)))
    at [] h = unfold squeeze in tt
    at (c ∷ r) h = rw (reverse-cons, squeeze-concat false (reverse r) c h, reverse-append) h

pub space_is_space : is_space 32 ≡ true
unfolding is_space
space_is_space = refl

squeeze-SingleSpaces : (b : Bool) (s : Text) → SingleSpaces (squeeze b s)
unfolding squeeze
squeeze-SingleSpaces b [] = tt
squeeze-SingleSpaces true (c ∷ s) = elim (Bool-cases (is_space c)) [
  | inl e ↦ rw e (squeeze-SingleSpaces true s)
  | inr e ↦ rw e ((λ f. cc), squeeze-SingleSpaces false s)
]
squeeze-SingleSpaces false (c ∷ s) = elim (Bool-cases (is_space c)) [
  | inl e ↦ rw e ((λ _. (refl, squeeze-true-NoLead s)), squeeze-SingleSpaces true s)
  | inr e ↦ rw e ((λ f. cc), squeeze-SingleSpaces false s)
]

squeeze_again :
    (s : Text)
    → (squeeze true (squeeze true s) ≡ squeeze true s)
      × (squeeze false (squeeze true s) ≡ squeeze true s)
      × (squeeze false (squeeze false s) ≡ squeeze false s)
unfolding squeeze
squeeze_again [] = (refl, refl, refl)
squeeze_again (c ∷ s) =
    let (both, mixed, plain) = squeeze_again s in
    elim (Bool-cases (is_space c)) [
      | inl e ↦ rw e (both, mixed, rw space_is_space (ap (◌∷◌ 32) both))
      | inr e ↦ rw e (rw e (ap (◌∷◌ c) plain), rw e (ap (◌∷◌ c) plain), rw e (ap (◌∷◌ c) plain))
    ]

-- The display form of any input has no white space at its ends, and inside it only single
-- spaces (U+0020).
pub display_device_name-IsTidy : (raw : Text) → IsTidy (display_device_name raw)
unfolding display_device_name
display_device_name-IsTidy raw = record {
  no_lead = squeeze-NoLead (trim raw) (trim-NoLead raw);
  no_trail = squeeze-NoTrail (trim raw) (trim-NoTrail raw);
  single = squeeze-SingleSpaces false (trim raw);
}

pub collapse_whitespace_idem :
    (raw : Text) → collapse_whitespace (collapse_whitespace raw) ≡ collapse_whitespace raw
unfolding collapse_whitespace
collapse_whitespace_idem raw =
    let tidy =
      trim_of_NoLead (squeeze false (trim raw)) (squeeze-NoLead (trim raw) (trim-NoLead raw))
        (squeeze-NoTrail (trim raw) (trim-NoTrail raw)) in
    rw tidy (squeeze_again (trim raw)).2

-- The name that a device is stored under is the same whether it is folded from what the person
-- typed or from its display form.
pub normalize-display :
    (u : Unicode) (raw : Text)
    → normalize_device_name u (display_device_name raw) ≡ normalize_device_name u raw
unfolding normalize_device_name display_device_name
normalize-display u raw = ap (λ t. u.to_lower_case (u.nfkc t)) (collapse_whitespace_idem raw)
