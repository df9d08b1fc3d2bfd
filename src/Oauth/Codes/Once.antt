-- ===== src/Oauth/Codes/Once.antt =====
-- A code is fresh once.
use mcp_ui.Common.{
  ℕ, ◌≤◌, ◌≡◌, refl, sym, ap, ◌∙◌, subst, true, false, ◌||◌, none, some, List, [], ◌∷◌, leb,
  string_eq, Bool-cases, Option-cases, inl, inr, arith,
}
use mcp_ui.Common.Rows.{first, update, All}
use mcp_ui.Common.Rows.Laws.{first-none, first-some, first-none_of, All-at}
use mcp_ui.Normalize.{Text}
use mcp_ui.Tokens.{TokenKind, well_formed}
use mcp_ui.Oauth.Types.{CodeRow, Tables, Env, is_set, hash_of}
use mcp_ui.Oauth.Codes.{AuthorizationCodeRecord, consumable, consume_authorization_code}

-- No row of the code can be consumed at that time or later.
abbrev pub Unconsumable : Env → ℕ → Text → List CodeRow → Type 0
Unconsumable env now code rows = All (λ c. consumable env now code c ≡ false) rows

pub consumed-Unconsumable :
    (env : Env) (now later : ℕ) (code : Text) (rows : List CodeRow)
    → now ≤ later
    → Unconsumable env later code
        (update (consumable env now code) (λ c. record c { consumed_at = some now }) rows)
unfolding update
consumed-Unconsumable env now later code [] le = tt
consumed-Unconsumable env now later code (c ∷ rows) le =
    (ground arith, consumed-Unconsumable env now later code rows le)

later-Unconsumable :
    (env : Env) (now later : ℕ) (code : Text) (rows : List CodeRow)
    → now ≤ later
    → Unconsumable env now code rows
    → Unconsumable env later code rows
later-Unconsumable env now later code [] le h = tt
later-Unconsumable env now later code (c ∷ rows) le h =
    (ground (arith, h.0), later-Unconsumable env now later code rows le h.1)

module _ (env : Env) (code : Text) where
  -- After a code was presented no row of it can be consumed.
  pub consume-Unconsumable :
      (now later : ℕ) (t : Tables)
      → now ≤ later
      → well_formed env.crc32 TokenKind.code code ≡ true
      → Unconsumable env later code (consume_authorization_code env now (some code) t).1.codes
  unfolding consume_authorization_code
  consume-Unconsumable now later t le good =
      elim (Option-cases (first (consumable env now code) t.codes)) [
        | inl e ↦
            rw (good, e) (later-Unconsumable env now later code t.codes le (first-none _ t.codes e))
        | inr (row, e) ↦ rw (good, e) (consumed-Unconsumable env now later code t.codes le)
      ]

  -- A code with no consumable row is found flagged, if it is found, and nothing changes.
  pub flagged :
      (now : ℕ) (t : Tables)
      → Unconsumable env now code t.codes
      → well_formed env.crc32 TokenKind.code code ≡ true
      → consume_authorization_code env now (some code) t ≡ (
        elim (first (λ c. hash_of env code c.code_hash) t.codes) [
          | none ↦ none
          | some miss ↦ some (record {
            row = miss;
            already_consumed = is_set miss.consumed_at;
            expired = leb miss.expires_at now;
          })
        ],
        t,
      )
  unfolding consume_authorization_code
  flagged now t un good = rw (good, first-none_of _ t.codes un) refl

-- However a code is presented a second time, and whatever the first presentation found, the
-- second does not find it fresh: it finds nothing, or a record that is flagged as consumed or
-- expired. The clock has not gone back between the two.
pub consume_once :
    (env : Env) (now later : ℕ) (code : Text) (t : Tables) (found : AuthorizationCodeRecord)
    → now ≤ later
    → (consume_authorization_code env later
        (some code)
        (consume_authorization_code env now (some code) t).1).0
      ≡ some found
    → (found.already_consumed || found.expired) ≡ true
unfolding consume_authorization_code
consume_once env now later code t found le e =
    elim (Bool-cases (well_formed env.crc32 TokenKind.code code)) [
      | inr malformed ↦ absurd (not_found (rw malformed at e))
      | inl good ↦
          let t' = (consume_authorization_code env now (some code) t).1 in
          let un = consume-Unconsumable env code now later t le good in
          let seen = ap (λ x. x.0) (sym (flagged env code later t' un good)) ∙ e in
          elim (Option-cases (first (λ c. hash_of env code c.code_hash) t'.codes)) [
            | inl none' ↦ absurd (not_found (rw none' at seen))
            | inr (miss, at) ↦
                let (here, m) = first-some _ t'.codes at in
                let off = All-at (λ c. consumable env later code c ≡ false) t'.codes un m in
                flags miss off here (rw at at seen)
          ]
    ]
  where
    not_found : {x : AuthorizationCodeRecord} → none ≡ some x → ⊥
    not_found e = cc

    record_inj : {x y : AuthorizationCodeRecord} → some x ≡ some y → x ≡ y
    record_inj e = cc

    flags :
        (miss : CodeRow)
        → consumable env later code miss ≡ false
        → hash_of env code miss.code_hash ≡ true
        → some (record {
          row = miss;
          already_consumed = is_set miss.consumed_at;
          expired = leb miss.expires_at later;
        })
          ≡ some found
        → (found.already_consumed || found.expired) ≡ true
    flags miss off here same =
        subst (λ r. (r.already_consumed || r.expired) ≡ true) (record_inj same)
          (ground (arith, off, here))
