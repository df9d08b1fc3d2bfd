-- ===== src/Replay/Once.antt =====
-- An identifier is accepted once in its lifetime.
use mcp_ui.Common.{
  ℕ, suc, ◌+◌, ◌*◌, ◌<◌, ◌≡◌, refl, String, Bool, true, false, ◌&&◌, Option, none, some, arith,
  Bool-cases, Option-cases, inl, inr, leb, ltb, ◌==◌, string_eq, if◌then◌else◌, List, [], ◌∷◌,
  text_eq, ap, ◌∙◌, sym, beq_self,
}
use mcp_ui.Common.Rows.{All}
use mcp_ui.Common.Dict.{
  Dict, get, put, size, IsMap, get-put, get-sweep, put-IsMap, sweep-IsMap, unless,
}
use mcp_ui.Replay.{claim, swept, max_seen}

pub record Claim : Type 0 where
  pub key : String
  pub ttl_seconds : ℕ
  pub now : ℕ

-- The expiry of a key, while it lies ahead.
abbrev pub live : ℕ → Option ℕ → Option ℕ
live now = unless (λ expiry. leb expiry now)

module _ (now : ℕ) (seen : Dict ℕ) (map : IsMap seen) where
  swept-IsMap : IsMap (swept now seen)
  swept-IsMap = elim (Bool-cases (ltb max_seen (size seen))) [
    | inl large ↦ rw large (sweep-IsMap (λ expiry. leb expiry now) seen map)
    | inr small ↦ rw small map
  ]

  live-swept : (j : String) → live now (get j (swept now seen)) ≡ live now (get j seen)
  live-swept j = elim (Bool-cases (ltb max_seen (size seen))) [
    | inl large ↦
        rw large (rw (get-sweep (λ expiry. leb expiry now) j seen map) (again (get j seen)))
    | inr small ↦ rw small refl
  ]
    where
      again : (o : Option ℕ) → live now (live now o) ≡ live now o
      again none = refl
      again (some e) = ground arith

-- What is live lies ahead.
live-some : (now e : ℕ) (o : Option ℕ) → live now o ≡ some e → (o ≡ some e) × (now < e)
live-some now e none h = cc
live-some now e (some x) h = ground arith

module _ (key : String) (ttl_seconds now : ℕ) (seen : Dict ℕ) (map : IsMap seen) where
  abbrev accepted_claim : Bool × Dict ℕ
  accepted_claim = (true, put key (now + ttl_seconds * 1000) (swept now seen))

  claim_accepted : live now (get key seen) ≡ none → claim key ttl_seconds now seen ≡ accepted_claim
  unfolding claim
  claim_accepted dead = elim (Option-cases (get key (swept now seen))) [
    | inl e ↦ rw (e, claim) refl
    | inr (x, e) ↦
        let off : live now (some x) ≡ none =
          ap (live now) (sym e) ∙ live-swept now seen map key ∙ dead in
        rw (e, claim) (ground arith)
  ]

  kept_at :
      (expiry : ℕ) → live now (get key seen) ≡ some expiry → get key (swept now seen) ≡ some expiry
  kept_at expiry at = (live-some now expiry _ (live-swept now seen map key ∙ at)).0

  claim_refused :
      (expiry : ℕ)
      → live now (get key seen) ≡ some expiry
      → claim key ttl_seconds now seen ≡ (false, swept now seen)
  unfolding claim
  claim_refused expiry at =
      let ahead = (live-some now expiry _ at).1 in rw (kept_at expiry at, claim) (ground arith)

  claim-IsMap : IsMap (claim key ttl_seconds now seen).1
  claim-IsMap = elim (Option-cases (live now (get key seen))) [
    | inl e ↦
        rw (claim_accepted e)
          (put-IsMap key (now + ttl_seconds * 1000) _ (swept-IsMap now seen map))
    | inr (expiry, e) ↦ rw (claim_refused expiry e) (swept-IsMap now seen map)
  ]

  -- A claim of another identifier leaves what is live.
  other_claim :
      (j : String) (expiry : ℕ)
      → (key == j) ≡ false
      → live now (get j seen) ≡ some expiry
      → get j (claim key ttl_seconds now seen).1 ≡ some expiry
  other_claim j expiry away at = elim (Option-cases (live now (get key seen))) [
    | inl e ↦ rw (claim_accepted e) (get-put key j _ (swept now seen) ∙ rw away kept)
    | inr (x, e) ↦ rw (claim_refused x e) kept
  ]
    where
      kept : get j (swept now seen) ≡ some expiry
      kept = (live-some now expiry _ (live-swept now seen map j ∙ at)).0

-- How often a key is accepted.
pub accepted : String → Dict ℕ → List Claim → ℕ
accepted key m [] = 0
accepted key m (c ∷ cs) =
    let (ok, m') = claim c.key c.ttl_seconds c.now m in
    let rest = accepted key m' cs in if c.key == key && ok then suc rest else rest

accepted_none :
    (key : String) (expiry : ℕ) (m : Dict ℕ) (cs : List Claim)
    → IsMap m
    → get key m ≡ some expiry
    → All (λ c. c.now < expiry) cs
    → accepted key m cs ≡ 0
unfolding accepted
accepted_none key expiry m [] map at inside = refl
accepted_none key expiry m (c ∷ cs) map at inside =
    let kept_map = claim-IsMap c.key c.ttl_seconds c.now m map in
    let ahead : live c.now (get key m) ≡ some expiry = rw at (ground (arith, inside.0)) in
    elim (Bool-cases (c.key == key)) [
      | inl same ↦
          let answer : claim c.key c.ttl_seconds c.now m ≡ (false, swept c.now m) =
            claim_refused c.key c.ttl_seconds c.now m map expiry
              (rw ((text_eq c.key key).0 same) ahead) in
          let kept : get key (swept c.now m) ≡ some expiry =
            kept_at key c.ttl_seconds c.now m map expiry ahead in
          rw (same, answer)
            (accepted_none key expiry (swept c.now m) cs (swept-IsMap c.now m map) kept inside.1)
      | inr away ↦ rw away (
          accepted_none key expiry _ cs kept_map
            (other_claim c.key c.ttl_seconds c.now m map key expiry away ahead) inside.1)
    ]

-- An identifier that is not remembered is accepted once in its lifetime: of a first claim and any
-- claims that follow it before the lifetime of the first has passed, whatever other identifiers
-- are claimed between them and whether or not the map is swept, exactly one claim of the
-- identifier is accepted.
pub accepted_once :
    (c : Claim) (cs : List Claim) (m : Dict ℕ)
    → IsMap m
    → live c.now (get c.key m) ≡ none
    → All (λ d. d.now < c.now + c.ttl_seconds * 1000) cs
    → accepted c.key m (c ∷ cs) ≡ 1
unfolding accepted
accepted_once c cs m map dead inside =
    let first = claim_accepted c.key c.ttl_seconds c.now m map dead in
    let rest =
      accepted_none c.key (c.now + c.ttl_seconds * 1000)
        (put c.key (c.now + c.ttl_seconds * 1000) (swept c.now m)) cs
        (put-IsMap c.key (c.now + c.ttl_seconds * 1000) (swept c.now m) (swept-IsMap c.now m map))
        (get-put c.key c.key (c.now + c.ttl_seconds * 1000) (swept c.now m)
          ∙ rw (beq_self c.key) refl)
        inside in
    rw (beq_self c.key, first) (ap suc rest)
