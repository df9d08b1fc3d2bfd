-- ===== src/Oauth/Scope/Words.antt =====
-- Words that were joined can be split again.
use mcp_ui.Common.{
  ℕ, ◌≡◌, ◌≢◌, refl, ap, ◌∙◌, Bool, false, List, [], ◌∷◌, ◌++◌, nat_eq, Bool-cases, inl, inr,
}
use mathlib.Core.List.{append-nil}
use mcp_ui.Common.Rows.{All}
use mcp_ui.Normalize.{Text}
use mcp_ui.Oauth.Scope.{split_words, add_word, words, join, is_blank}

-- A word: characters that are not separators, at least one.
pub record IsWord (sep : ℕ → Bool) (w : Text) : Type 0 where
  pub some_unit : w ≢ []
  pub no_sep : All (λ c. sep c ≡ false) w

module _ (sep : ℕ → Bool) where
  split-no_sep : (s : Text) → All (λ c. sep c ≡ false) (split_words sep s).0
  unfolding split_words
  split-no_sep [] = tt
  split-no_sep (c ∷ s) = elim (Bool-cases (sep c)) [
    | inl e ↦ rw e tt
    | inr e ↦ rw e (e, split-no_sep s)
  ]

  add_word-All :
      (w : Text) (ws : List Text)
      → All (λ c. sep c ≡ false) w
      → All (IsWord sep) ws
      → All (IsWord sep) (add_word w ws)
  add_word-All [] ws h a = a
  add_word-All (c ∷ w) ws h a = (record { some_unit = λ e. cc; no_sep = h }, a)

  split-All : (s : Text) → All (IsWord sep) (split_words sep s).1
  unfolding split_words
  split-All [] = tt
  split-All (c ∷ s) = elim (Bool-cases (sep c)) [
    | inl e ↦ rw e (add_word-All _ _ (split-no_sep s) (split-All s))
    | inr e ↦ rw e (split-All s)
  ]

  -- What `split` gives are words.
  pub words-All : (s : Text) → All (IsWord sep) (words sep s)
  words-All s = add_word-All _ _ (split-no_sep s) (split-All s)

split-append :
    (sep : ℕ → Bool) (w s : Text)
    → All (λ c. sep c ≡ false) w
    → split_words sep (w ++ s) ≡ (w ++ (split_words sep s).0, (split_words sep s).1)
unfolding split_words
split-append sep [] s h = refl
split-append sep (c ∷ w) s h = rw (h.0, split-append sep w s h.1) refl

add_word-word : (w : Text) (ws : List Text) → w ≢ [] → add_word w ws ≡ w ∷ ws
add_word-word [] ws h = absurd (h refl)
add_word-word (c ∷ w) ws h = refl

single : (w : Text) → All (λ c. is_blank c ≡ false) w → split_words is_blank w ≡ (w, [])
unfolding split_words
single [] h = refl
single (c ∷ w) h = rw (h.0, single w h.1) refl

-- Splitting what was joined of words without a space gives the words.
pub words-join : (ws : List Text) → All (IsWord is_blank) ws → words is_blank (join ws) ≡ ws
unfolding join split_words
words-join [] h = refl
words-join (w ∷ []) h = rw (single w h.0.no_sep) (add_word-word w [] h.0.some_unit)
words-join (w ∷ v ∷ ws) h =
    let rest = words-join (v ∷ ws) h.1 in
    rw (split-append is_blank w (32 ∷ join (v ∷ ws)) h.0.no_sep)
      (rw (append-nil w) (add_word-word w _ h.0.some_unit ∙ ap (◌∷◌ w) rest))
