-- ===== src/Oauth/Clients/Forbidding.antt =====
-- server/src/oauth/clients.ts: which headers forbid the reuse of a document.
use mcp_ui.Common.{
  ℕ, ◌≡◌, refl, ◌⊎◌, sym, ap, subst, String, Bool, true, false, Option, none, some, [], ◌∷◌, ◌++◌,
  ◌==◌, nat_eq, string_eq, arith, Bool-cases, Option-cases, inl, inr, beq_self,
}
use Prim.Native.Char.{code}
use Prim.Native.String as NativeString
use mcp_ui.Normalize.{Text}
use mcp_ui.Oauth.Clients.CacheControl.{
  is_word_unit, fold_case, word_ends, after_pattern, no_store, no_cache, says_no,
}

-- The code units of an ASCII text.
abbrev units : String → Text
units NativeString.[] = []
units (NativeString.◌∷◌ c s) = code c ∷ units s

abbrev pub folded : Text → Text
folded [] = []
folded (c ∷ s) = fold_case c ∷ folded s

-- A word that forbids caching, in letters of either case.
abbrev pub IsForbidding : Text → Type 0
IsForbidding word = (folded word ≡ units "no-store") ⊎ (folded word ≡ units "no-cache")

-- The text before does not end inside a word, nor does the text after begin inside one.
abbrev pub EndsOutside : Bool → Text → Type 0
EndsOutside in_word [] = in_word ≡ false
EndsOutside in_word (c ∷ s) = EndsOutside (is_word_unit c) s

abbrev pub StartsOutside : Text → Type 0
StartsOutside [] = Unit
StartsOutside (c ∷ s) = is_word_unit c ≡ false

-- The text holds a forbidding word that stands for itself.
pub record Names (in_word : Bool) (header : Text) : Type 0 where
  pub before : Text
  pub word : Text
  pub rest : Text
  pub whole : header ≡ before ++ (word ++ rest)
  pub forbids : IsForbidding word
  pub starts : EndsOutside in_word before
  pub ends : StartsOutside rest

abbrev pub ForbidsCaching : Option Text → Type 0
ForbidsCaching none = ⊥
ForbidsCaching (some header) = Names false header

after_pattern-some :
    (p s : Text) {rest : Text}
    → after_pattern p s ≡ some rest
    → (word : Text) × (s ≡ word ++ rest) × (folded word ≡ p)
unfolding after_pattern
after_pattern-some [] s e = ([], some_inj e, refl)
  where
    some_inj : {a b : Text} → some a ≡ some b → a ≡ b
    some_inj e = cc
after_pattern-some (p ∷ ps) [] e = absurd (missing e)
  where
    missing : {a : Text} → ¬ (none ≡ some a)
    missing e = cc
after_pattern-some (p ∷ ps) (c ∷ s) {rest} e = elim (Bool-cases (p == fold_case c)) [
  | inr other ↦ absurd (missing (rw other at e))
  | inl same ↦
      let (word, whole, spelled) = after_pattern-some ps s (rw same at e) in
      (c ∷ word, ap (λ x. c ∷ x) whole, cc (unit p (fold_case c) same, spelled))
]
  where
    missing : {a : Text} → ¬ (none ≡ some a)
    missing e = cc

    unit : (a b : ℕ) → (a == b) ≡ true → a ≡ b
    unit a b e = ground arith

after_pattern-folded : (word rest : Text) → after_pattern (folded word) (word ++ rest) ≡ some rest
unfolding after_pattern
after_pattern-folded [] rest = refl
after_pattern-folded (c ∷ word) rest = rw (beq_self (fold_case c)) (after_pattern-folded word rest)

ends_outside : (rest : Text) → word_ends (some rest) ≡ true → StartsOutside rest
ends_outside [] e = tt
ends_outside (c ∷ s) e = ground arith

outside_ends : (rest : Text) → StartsOutside rest → word_ends (some rest) ≡ true
outside_ends [] h = refl
outside_ends (c ∷ s) h = rw h refl

-- A pattern that is found before a border is a word.
found_word :
    (p s : Text)
    → word_ends (after_pattern p s) ≡ true
    → (word : Text) × (rest : Text) × (s ≡ word ++ rest) × (folded word ≡ p) × StartsOutside rest
found_word p s e = elim (Option-cases (after_pattern p s)) [
  | inl none' ↦ absurd (clash (rw none' at e))
  | inr (rest, found) ↦
      let (word, whole, spelled) = after_pattern-some p s found in
      (word, rest, whole, spelled, ends_outside rest (rw found at e))
]
  where
    clash : ¬ (false ≡ true)
    clash e = cc

word_further : (b : Bool) (c : ℕ) (s : Text) → Names (is_word_unit c) s → Names b (c ∷ s)
word_further b c s n = record {
  before = c ∷ n.before;
  word = n.word;
  rest = n.rest;
  whole = ap (λ x. c ∷ x) n.whole;
  forbids = n.forbids;
  starts = n.starts;
  ends = n.ends;
}

word_here :
    (b : Bool) (s : Text)
    → b ≡ false
    → ((word_ends (after_pattern no_store s) ≡ true)
        ⊎ (word_ends (after_pattern no_cache s) ≡ true))
    → Names b s
word_here b s start (inl e) =
    let (word, rest, whole, spelled, border) = found_word no_store s e in
    record {
      before = [];
      word = word;
      rest = rest;
      whole = whole;
      forbids = inl spelled;
      starts = start;
      ends = border;
    }
word_here b s start (inr e) =
    let (word, rest, whole, spelled, border) = found_word no_cache s e in
    record {
      before = [];
      word = word;
      rest = rest;
      whole = whole;
      forbids = inr spelled;
      starts = start;
      ends = border;
    }

pub says_no-Names : (b : Bool) (s : Text) → says_no b s ≡ true → Names b s
unfolding says_no
says_no-Names b [] e = absurd (clash e)
  where
    clash : ¬ (false ≡ true)
    clash e = cc
says_no-Names b (c ∷ s) e = elim (Bool-cases (says_no (is_word_unit c) s)) [
  | inl later ↦ word_further b c s (says_no-Names (is_word_unit c) s later)
  | inr unsaid ↦ elim (Bool-cases (word_ends (after_pattern no_store (c ∷ s)))) [
    | inl store ↦ word_here b (c ∷ s) (ground arith) (inl store)
    | inr other ↦ word_here b (c ∷ s) (ground arith) (inr (ground arith))
  ]
]

-- A text that begins with a forbidding word is found to say so.
said_here :
    (word rest : Text)
    → IsForbidding word
    → StartsOutside rest
    → says_no false (word ++ rest) ≡ true
unfolding says_no
said_here [] rest (inl e) h = absurd cc
said_here [] rest (inr e) h = absurd cc
said_here (c ∷ word) rest (inl e) h =
    let border : word_ends (after_pattern no_store ((c ∷ word) ++ rest)) ≡ true =
      subst (λ p. word_ends (after_pattern p ((c ∷ word) ++ rest)) ≡ true) e
        (rw (after_pattern-folded (c ∷ word) rest) (outside_ends rest h)) in
    rw border refl
said_here (c ∷ word) rest (inr e) h =
    let border : word_ends (after_pattern no_cache ((c ∷ word) ++ rest)) ≡ true =
      subst (λ p. word_ends (after_pattern p ((c ∷ word) ++ rest)) ≡ true) e
        (rw (after_pattern-folded (c ∷ word) rest) (outside_ends rest h)) in
    ground (arith, border)

said_after :
    (b : Bool) (before word rest : Text)
    → IsForbidding word
    → EndsOutside b before
    → StartsOutside rest
    → says_no b (before ++ (word ++ rest)) ≡ true
unfolding says_no
said_after b [] word rest forbids starts ends =
    subst (λ x. says_no x (word ++ rest) ≡ true) (sym starts) (said_here word rest forbids ends)
said_after b (c ∷ before) word rest forbids starts ends =
    rw (said_after (is_word_unit c) before word rest forbids starts ends) (ground arith)

pub Names-says_no : (b : Bool) (s : Text) → Names b s → says_no b s ≡ true
Names-says_no b s n =
    subst (λ x. says_no b x ≡ true) (sym n.whole)
      (said_after b n.before n.word n.rest n.forbids n.starts n.ends)
