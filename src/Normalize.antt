-- ===== src/Normalize.antt =====
-- server/src/normalize.ts: the folds of names. A JavaScript string is its list of UTF-16 code
-- units. `normalize('NFKC')` and `toLowerCase()` rest on the Unicode tables and are parameters.
pub mod Laws
pub mod Words
use mcp_ui.Common.{
  ℕ, ◌+◌, ◌≤◌, ◌≡◌, Bool, true, false, ◌&&◌, ◌||◌, List, [], ◌∷◌, leb, ◌==◌, nat_eq, if◌then◌else◌,
}
use mathlib.Core.List.{reverse}

abbrev pub Text : Type 0
Text = List ℕ

-- WhiteSpace and LineTerminator of ECMAScript, which are also `\s`.
unfoldable pub is_space : ℕ → Bool
is_space c =
    (leb 9 c && leb c 13)
    || c == 32
    || c == 0xa0
    || c == 0x1680
    || (leb 0x2000 c && leb c 0x200a)
    || c == 0x2028
    || c == 0x2029
    || c == 0x202f
    || c == 0x205f
    || c == 0x3000
    || c == 0xfeff

unfoldable pub trim_start : Text → Text
trim_start [] = []
trim_start (c ∷ s) = let rest = trim_start s in if is_space c then rest else c ∷ s

unfoldable pub trim : Text → Text
trim s = reverse (trim_start (reverse (trim_start s)))

-- `replace(/\s+/g, ' ')`; the flag says that the unit before was in the run.
unfoldable pub squeeze : Bool → Text → Text
squeeze in_run [] = []
squeeze in_run (c ∷ s) =
    let later = squeeze true s in
    let word = squeeze false s in
    if is_space c then (if in_run then later else 32 ∷ later) else c ∷ word

unfoldable pub collapse_whitespace : Text → Text
collapse_whitespace raw = squeeze false (trim raw)

unfoldable pub display_device_name : Text → Text
unfolding collapse_whitespace
display_device_name raw = collapse_whitespace raw

-- What the code takes from the Unicode tables.
pub record Unicode : Type 0 where
  pub nfkc : Text → Text
  pub to_lower_case : Text → Text

unfoldable pub normalize_username : Unicode → Text → Text
normalize_username u raw = u.to_lower_case (u.nfkc (trim raw))

unfoldable pub normalize_device_name : Unicode → Text → Text
unfolding collapse_whitespace
normalize_device_name u raw = u.to_lower_case (u.nfkc (collapse_whitespace raw))
