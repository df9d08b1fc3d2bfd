-- ===== src/Oauth/Clients/CacheControl.antt =====
-- server/src/oauth/clients.ts: how long a client's metadata document may be reused. The two
-- regular expressions are written out: `i` folds ASCII letters only, and `\b` is a change between
-- word units and others.
use mcp_ui.Common.{
  ℕ, ◌+◌, ◌-◌, ◌*◌, ◌≤◌, Bool, true, false, ◌&&◌, ◌||◌, not, Option, none, some, [], ◌∷◌, leb, ◌==◌,
  nat_eq, if◌then◌else◌, max, min, arith,
}
use mcp_ui.Normalize.{Text}
use mcp_ui.Oauth.Clients.Urls.{is_letter, is_digit}

-- `\w`
abbrev pub is_word_unit : ℕ → Bool
is_word_unit c = is_letter c || is_digit c || c == 95

abbrev pub fold_case : ℕ → ℕ
fold_case c = if leb 65 c && leb c 90 then c + 32 else c

-- What follows the pattern, where the text begins with it.
unfoldable pub after_pattern : Text → Text → Option Text
after_pattern [] s = some s
after_pattern (p ∷ ps) [] = none
after_pattern (p ∷ ps) (c ∷ s) =
    let rest = after_pattern ps s in if p == fold_case c then rest else none

-- A word ends here.
abbrev pub word_ends : Option Text → Bool
word_ends none = false
word_ends (some []) = true
word_ends (some (c ∷ s)) = not (is_word_unit c)

-- 'no-store', 'no-cache' and 'max-age='.
abbrev pub no_store : Text
no_store = 110 ∷ 111 ∷ 45 ∷ 115 ∷ 116 ∷ 111 ∷ 114 ∷ 101 ∷ []

abbrev pub no_cache : Text
no_cache = 110 ∷ 111 ∷ 45 ∷ 99 ∷ 97 ∷ 99 ∷ 104 ∷ 101 ∷ []

abbrev pub max_age : Text
max_age = 109 ∷ 97 ∷ 120 ∷ 45 ∷ 97 ∷ 103 ∷ 101 ∷ 61 ∷ []

-- `/\bno-(store|cache)\b/i.test(s)`; the flag says that a word unit stands before.
unfoldable pub says_no : Bool → Text → Bool
says_no in_word [] = false
says_no in_word (c ∷ s) =
    let later = says_no (is_word_unit c) s in
    let here =
      word_ends (after_pattern no_store (c ∷ s)) || word_ends (after_pattern no_cache (c ∷ s)) in
    (not in_word && here) || later

-- The number that the digits continue.
unfoldable pub digits_from : ℕ → Text → ℕ
digits_from n [] = n
digits_from n (c ∷ s) =
    let more = digits_from (n * 10 + (c - 48)) s in if is_digit c then more else n

-- `(\d+)`
abbrev digits : Option Text → Option ℕ
digits none = none
digits (some []) = none
digits (some (c ∷ s)) = if is_digit c then some (digits_from 0 (c ∷ s)) else none

abbrev or_later : Option ℕ → Option ℕ → Option ℕ
or_later none later = later
or_later (some n) later = some n

-- `/\bmax-age=(\d+)/i.exec(s)?.[1]`, the first match.
unfoldable pub find_max_age : Bool → Text → Option ℕ
find_max_age in_word [] = none
find_max_age in_word (c ∷ s) =
    let later = find_max_age (is_word_unit c) s in
    if in_word then later else or_later (digits (after_pattern max_age (c ∷ s))) later

abbrev pub clamped : Option ℕ → ℕ
clamped none = 300
clamped (some n) = min (max n 60) 86400

-- `cimdCacheSeconds`; an empty header counts as none.
unfoldable pub cimd_cache_seconds : Option Text → ℕ
cimd_cache_seconds none = 300
cimd_cache_seconds (some []) = 300
cimd_cache_seconds (some (c ∷ s)) =
    if says_no false (c ∷ s) then 0 else clamped (find_max_age false (c ∷ s))

pub clamped_bounds : (o : Option ℕ) → (60 ≤ clamped o) × (clamped o ≤ 86400)
clamped_bounds none = ground arith
clamped_bounds (some n) = ground arith
