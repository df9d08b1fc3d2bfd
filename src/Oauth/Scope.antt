-- ===== src/Oauth/Scope.antt =====
-- Scope parameters: `split` into words, `join` and inclusion, as server/src/oauth uses them.
pub mod Words
use mcp_ui.Common.{
  ℕ, Bool, true, false, not, List, [], ◌∷◌, ◌++◌, ◌==◌, nat_eq, list_eq, if◌then◌else◌,
}
use mcp_ui.Common.Rows.{any}
use mcp_ui.Normalize.{Text}

-- The separator of `split(' ')`.
abbrev pub is_blank : ℕ → Bool
is_blank c = c == 32

-- A word in front, where it has a character.
abbrev pub add_word : Text → List Text → List Text
add_word [] ws = ws
add_word (c ∷ w) ws = (c ∷ w) ∷ ws

-- The first word and those after it.
unfoldable pub split_words : (ℕ → Bool) → Text → Text × List Text
split_words sep [] = ([], [])
split_words sep (c ∷ s) =
    let (w, ws) = split_words sep s in if sep c then ([], add_word w ws) else (c ∷ w, ws)

-- `s.split(separator).filter(Boolean)`, of one separator or of runs of separators.
abbrev pub words : (ℕ → Bool) → Text → List Text
words sep s = let (w, ws) = split_words sep s in add_word w ws

-- `ws.join(' ')`
unfoldable pub join : List Text → Text
join [] = []
join (w ∷ []) = w
join (w ∷ v ∷ ws) = w ++ 32 ∷ join (v ∷ ws)

-- `ws.includes(w)`
abbrev pub includes : List Text → Text → Bool
includes ws w = any (λ v. v == w) ws
