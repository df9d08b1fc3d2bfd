-- ===== src/Tokens.antt =====
-- server/src/tokens/format.ts and tokens/hash.ts: the shape of a token and its stored form.
-- CRC-32, HMAC-SHA256 and the random bytes, already in base64url, are parameters.
pub mod Kinds
use mcp_ui.Common.{
  ℕ, zero, suc, ◌+◌, ◌/◌, ◌%◌, String, Bool, true, false, ◌&&◌, ◌||◌, List, [], ◌∷◌, ◌++◌, map, leb,
  ◌==◌, nat_eq, list_eq, if◌then◌else◌,
}
use mcp_ui.Common.Rows.{every}
use mcp_ui.Normalize.{Text}

pub data TokenKind : Type 0 where
  access refresh code session binding : TokenKind

-- The two letters of `PREFIX[kind]`: at, rt, ac, ss, pb.
unfoldable pub letters : TokenKind → Text
letters access = 97 ∷ 116 ∷ []
letters refresh = 114 ∷ 116 ∷ []
letters code = 97 ∷ 99 ∷ []
letters session = 115 ∷ 115 ∷ []
letters binding = 112 ∷ 98 ∷ []

-- `PREFIX[kind]`: iotsw_, the letters, _.
unfoldable pub prefix : TokenKind → Text
prefix kind = 105 ∷ 111 ∷ 116 ∷ 115 ∷ 119 ∷ 95 ∷ (letters kind ++ 95 ∷ [])

abbrev pub body_length : ℕ
body_length = 43

abbrev pub check_length : ℕ
check_length = 6

unfoldable pub length {ℓ} : {A : Type ℓ} → List A → ℕ
length [] = 0
length (x ∷ xs) = suc (length xs)

unfoldable pub take {ℓ} : {A : Type ℓ} → ℕ → List A → List A
take zero xs = []
take (suc n) [] = []
take (suc n) (x ∷ xs) = x ∷ take n xs

unfoldable pub drop {ℓ} : {A : Type ℓ} → ℕ → List A → List A
drop zero xs = xs
drop (suc n) [] = []
drop (suc n) (x ∷ xs) = drop n xs

-- `token.startsWith(prefix)`
unfoldable pub starts_with : Text → Text → Bool
starts_with [] token = true
starts_with (p ∷ ps) [] = false
starts_with (p ∷ ps) (c ∷ cs) = (p == c) && starts_with ps cs

-- A character of `[A-Za-z0-9_-]`.
unfoldable pub is_base64url : ℕ → Bool
is_base64url c =
    (leb 65 c && leb c 90)
    || (leb 97 c && leb c 122)
    || (leb 48 c && leb c 57)
    || c == 95
    || c == 45

-- `BASE62[digit]`
unfoldable pub base62_digit : ℕ → ℕ
base62_digit d = if leb d 9 then 48 + d else if leb d 35 then 55 + d else 61 + d

-- The loop of `base62`, its output so far handed on.
unfoldable pub base62_from : Text → ℕ → ℕ → Text
base62_from out rest zero = out
base62_from out rest (suc width) = base62_from (base62_digit (rest % 62) ∷ out) (rest / 62) width

abbrev pub base62 : ℕ → ℕ → Text
base62 value width = base62_from [] value width

module _ (crc32 : Text → ℕ) where
  unfoldable pub checksum : Text → Text
  checksum prefix_and_body = base62 (crc32 prefix_and_body) check_length

  -- `mint`; the random bytes are given in base64url.
  unfoldable pub mint : TokenKind → Text → Text
  mint kind random =
      let prefix_and_body = prefix kind ++ random in prefix_and_body ++ checksum prefix_and_body

  -- `wellFormed`, of a value that is a string.
  unfoldable pub well_formed : TokenKind → Text → Bool
  well_formed kind token =
      let p = prefix kind in
      if length token == length p + body_length + check_length
      then (if starts_with p token
          then (let body = take body_length (drop (length p) token) in
              if every is_base64url body
              then drop (length p + body_length) token == checksum (p ++ body)
              else false)
          else false)
      else false

-- The stored forms of a token: `tokenDigest` and `tokenDigestCandidates`. The first pepper is the
-- current one; a configuration without one fails, so there is a first.
pub record Peppers : Type 0 where
  pub current : String
  pub previous : List String

module _ (hmac : String → Text → String) (peppers : Peppers) where
  unfoldable pub token_digest : Text → String
  token_digest token = hmac peppers.current token

  unfoldable pub token_digest_candidates : Text → List String
  token_digest_candidates token = map (λ key. hmac key token) (peppers.current ∷ peppers.previous)
