-- ===== src/Tokens/Kinds.antt =====
-- What `mint` makes, `wellFormed` accepts, and for its own kind only.
use mcp_ui.Common.{
  ℕ, zero, suc, ◌+◌, ◌≡◌, ◌↔◌, ◌%◌, ◌/◌, refl, sym, ap, ◌∙◌, true, [], ◌∷◌, ◌++◌, ◌==◌, nat_eq,
  list_eq, if◌then◌else◌, arith, beq_self, Bool-cases, inl, inr,
}
use mathlib.Core.List.{append_assoc}
use mcp_ui.Common.Rows.{every}
use mcp_ui.Normalize.{Text}
use mcp_ui.Tokens.{
  TokenKind, access, refresh, code, session, binding, letters, prefix, length, take, drop,
  starts_with, is_base64url, base62_digit, base62_from, checksum, mint, well_formed,
}

length-append : (xs ys : Text) → length (xs ++ ys) ≡ length xs + length ys
unfolding length
length-append [] ys = omega arith
length-append (x ∷ xs) ys = rw (length-append xs ys) (omega arith)

take-append : (xs ys : Text) → take (length xs) (xs ++ ys) ≡ xs
unfolding take length
take-append [] ys = refl
take-append (x ∷ xs) ys = ap (◌∷◌ x) (take-append xs ys)

drop-append : (xs ys : Text) → drop (length xs) (xs ++ ys) ≡ ys
unfolding drop length
drop-append [] ys = refl
drop-append (x ∷ xs) ys = drop-append xs ys

take_at : (n : ℕ) (xs ys : Text) → length xs ≡ n → take n (xs ++ ys) ≡ xs
take_at n xs ys e = rw (sym e) (take-append xs ys)

drop_at : (n : ℕ) (xs ys : Text) → length xs ≡ n → drop n (xs ++ ys) ≡ ys
drop_at n xs ys e = rw (sym e) (drop-append xs ys)

starts_with-append : (xs ys : Text) → starts_with xs (xs ++ ys) ≡ true
unfolding starts_with
starts_with-append [] ys = refl
starts_with-append (x ∷ xs) ys = rw (beq_self x, starts_with-append xs ys)

length-base62_from :
    (out : Text) (rest width : ℕ) → length (base62_from out rest width) ≡ width + length out
unfolding base62_from length
length-base62_from out rest zero = omega arith
length-base62_from out rest (suc w) =
    rw (length-base62_from (base62_digit (rest % 62) ∷ out) (rest / 62) w) (omega arith)

-- A prefix that a text starts with can be read off it.
starts_with-take : (p token : Text) → starts_with p token ≡ true → take (length p) token ≡ p
unfolding starts_with take length
starts_with-take [] token e = refl
starts_with-take (a ∷ p) [] e = cc
starts_with-take (a ∷ p) (c ∷ token) e = elim (Bool-cases (a == c)) [
  | inl same ↦ rw (sym ((beq_eq a c).0 same)) (ap (◌∷◌ a) (starts_with-take p token (rw same at e)))
  | inr other ↦ absurd (ground arith)
]
  where
    beq_eq : (a c : ℕ) → ((a == c) ≡ true) ↔ (a ≡ c)
    beq_eq a c = nat_eq.equal_iff a c

length-prefix : (k : TokenKind) → length (prefix k) ≡ 9
unfolding length prefix letters
length-prefix access = refl
length-prefix refresh = refl
length-prefix code = refl
length-prefix session = refl
length-prefix binding = refl

kind_of : Text → TokenKind
kind_of (a ∷ b ∷ _) =
    if a == 114
    then refresh
    else (if a == 115
        then session
        else (if a == 112 then binding else (if b == 116 then access else code)))
kind_of _ = access

kind_of-prefix : (k : TokenKind) → kind_of (drop 6 (prefix k)) ≡ k
unfolding kind_of prefix letters drop
kind_of-prefix access = refl
kind_of-prefix refresh = refl
kind_of-prefix code = refl
kind_of-prefix session = refl
kind_of-prefix binding = refl

module _ (crc32 : Text → ℕ) where
  well_formed-starts :
      (k : TokenKind) (token : Text)
      → well_formed crc32 k token ≡ true
      → starts_with (prefix k) token ≡ true
  unfolding well_formed
  well_formed-starts k token e = ground arith

  length-checksum : (s : Text) → length (checksum crc32 s) ≡ 6
  unfolding checksum length
  length-checksum s = length-base62_from [] (crc32 s) 6

  -- A token that `mint` makes of 43 base64url characters is well formed, for the kind it was made for.
  pub well_formed-mint :
      (kind : TokenKind) (random : Text)
      → length random ≡ 43
      → every is_base64url random ≡ true
      → well_formed crc32 kind (mint crc32 kind random) ≡ true
  unfolding well_formed mint
  well_formed-mint kind random long good =
      let p = prefix kind in
      let c = checksum crc32 (p ++ random) in
      let parts : (p ++ random) ++ c ≡ p ++ (random ++ c) = append_assoc p random c in
      let whole : length ((p ++ random) ++ c) ≡ length p + 43 + 6 =
        length-append (p ++ random) c
        ∙ rw (length-append p random, long, length-checksum (p ++ random)) refl in
      let start : starts_with p ((p ++ random) ++ c) ≡ true =
        rw parts (starts_with-append p (random ++ c)) in
      let body : take 43 (drop (length p) ((p ++ random) ++ c)) ≡ random =
        rw (parts, drop-append p (random ++ c)) (take_at 43 random c long) in
      let check : drop (length p + 43) ((p ++ random) ++ c) ≡ c =
        drop_at (length p + 43) (p ++ random) c (length-append p random ∙ rw long refl) in
      rw (whole, beq_self (length p + 43 + 6), start, body, good, check) (beq_self c)

  -- No text is well formed for two kinds: a token of one kind is refused wherever another kind is
  -- expected.
  pub well_formed-kind :
      (k l : TokenKind) (token : Text)
      → well_formed crc32 k token ≡ true
      → well_formed crc32 l token ≡ true
      → k ≡ l
  unfolding well_formed
  well_formed-kind k l token a b =
      let at = λ (k : TokenKind) (e : well_formed crc32 k token ≡ true).
        rw (length-prefix k) at
          (starts_with-take (prefix k) token (well_formed-starts k token e)) in
      sym (kind_of-prefix k)
      ∙ ap (λ t. kind_of (drop 6 t)) (sym (at k a) ∙ at l b)
      ∙ kind_of-prefix l
