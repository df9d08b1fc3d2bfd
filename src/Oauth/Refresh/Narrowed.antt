-- ===== src/Oauth/Refresh/Narrowed.antt =====
-- The scope of a refresh stays within the scope that the token holds.
use mcp_ui.Common.{
  ◌≡◌, refl, sym, true, false, not, Option, none, some, List, [], ◌∷◌, ◌==◌, string_eq, nat_eq,
  list_eq, option_eq, Bool-cases, inl, inr, arith, beq_self,
}
use mcp_ui.Common.Rows.{All, any}
use mathlib.Core.List.{Memᴰ}
use mcp_ui.Common.Rows.Laws.{any-none, All-of}
use mcp_ui.Normalize.{Text, is_space, trim}
use mcp_ui.Oauth.Scope.{words, is_blank, includes, join}
use mcp_ui.Oauth.Scope.Words.{IsWord, words-All, words-join}
use mcp_ui.Oauth.Refresh.{narrowed}

abbrev pub Within : Text → Text → Type 0
Within held scope = All (λ w. includes (words is_blank held) w ≡ true) (words is_blank scope)

some_inj : {a b : Text} → some a ≡ some b → a ≡ b
some_inj e = cc

includes-Mem : (ws : List Text) {w : Text} → Memᴰ w ws → includes ws w ≡ true
unfolding any
includes-Mem [] m = elim m [ ]
includes-Mem (v ∷ ws) {w} (Memᴰ.head e) = rw (← e) (rw (beq_self w) refl)
includes-Mem (v ∷ ws) {w} (Memᴰ.tail m) = rw (includes-Mem ws m) (ground arith)

-- A word that `\s` splits off holds no blank.
space-blank : (w : Text) → All (λ c. is_space c ≡ false) w → All (λ c. is_blank c ≡ false) w
unfolding is_space
space-blank [] h = tt
space-blank (c ∷ w) h = (ground arith, space-blank w h.1)

blank_words : (ws : List Text) → All (IsWord is_space) ws → All (IsWord is_blank) ws
blank_words [] h = tt
blank_words (w ∷ ws) h =
    (record { some_unit = h.0.some_unit; no_sep = space-blank w h.0.no_sep }, blank_words ws h.1)

Within-self : (held : Text) → Within held held
Within-self held =
    All-of (λ w. includes (words is_blank held) w ≡ true) (words is_blank held)
      (λ w m. includes-Mem (words is_blank held) m)

pub narrowed-Within :
    (asked : Option Text) (held scope : Text) → narrowed asked held ≡ some scope → Within held scope
unfolding narrowed
narrowed-Within none held scope e = rw (sym (some_inj e)) (Within-self held)
narrowed-Within (some asked) held scope e = elim (Bool-cases (trim asked == [])) [
  | inl blank ↦ rw (sym (some_inj (rw blank at e))) (Within-self held)
  | inr there ↦
      elim (Bool-cases
        (any (λ entry. not (includes (words is_blank held) entry)) (words is_space asked))) [
          | inl wider ↦ absurd (ground arith)
          | inr inside ↦
              let same : words is_blank (join (words is_space asked)) ≡ words is_space asked =
                words-join (words is_space asked) (blank_words _ (words-All is_space asked)) in
              rw (sym (some_inj (rw (there, inside) at e)))
                (rw same (held_all (words is_space asked) (any-none _ _ inside)))
        ]
]
  where
    held_all :
        (ws : List Text)
        → All (λ w. not (includes (words is_blank held) w) ≡ false) ws
        → All (λ w. includes (words is_blank held) w ≡ true) ws
    held_all [] h = tt
    held_all (w ∷ ws) h = (ground arith, held_all ws h.1)
