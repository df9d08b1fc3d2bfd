-- ===== src/RateLimit/Limits.antt =====
-- What a limit grants within one window.
use mcp_ui.Common.{
  ℕ, suc, ◌+◌, ◌-◌, ◌<◌, min, ◌≡◌, refl, String, Bool, true, false, ◌&&◌, Option, none, some, arith,
  Bool-cases, inl, inr, ◌==◌, string_eq, if◌then◌else◌, List, [], ◌∷◌, text_eq, ◌∙◌, beq_self,
}
use mcp_ui.Common.Rows.{All}
use mcp_ui.Common.Dict.{Dict, get, IsMap}
use mcp_ui.RateLimit.{Window, hit, BucketResult, allowed, refused, take}
use mcp_ui.RateLimit.Windows.{live, ideal_window, hit-window, get-hit, hit-IsMap}

-- A call of a bucket: its key, the time of the hit and the time of the answer.
pub record Call : Type 0 where
  pub key : String
  pub now : ℕ
  pub later : ℕ

abbrev is_allowed : BucketResult → Bool
is_allowed allowed = true
is_allowed (refused _) = false

abbrev pub calls_for : String → List Call → ℕ
calls_for key [] = 0
calls_for key (c ∷ cs) = let rest = calls_for key cs in if c.key == key then suc rest else rest

module _ (limit window_ms : ℕ) (key : String) where
  -- How many calls with the key are allowed.
  pub granted : Dict Window → List Call → ℕ
  granted m [] = 0
  granted m (c ∷ cs) =
      let (r, m') = take limit window_ms c.key c.now c.later m in
      let rest = granted m' cs in if c.key == key && is_allowed r then suc rest else rest

  -- The window of the key in a store, while it is live.
  still_open : (now : ℕ) (o : Option Window) (w : Window) → live now o ≡ some w → o ≡ some w
  still_open now none w e = cc
  still_open now (some v) w e = ground arith

  module _ (c : Call) (m : Dict Window) (map : IsMap m) (w : Window) (at : get key m ≡ some w)
      (inside : c.now < w.reset_at) where
    own_hit :
        c.key ≡ key
        → ((hit c.key window_ms c.now m).0 ≡ record w { count = w.count + 1 })
          × (get key (hit c.key window_ms c.now m).1 ≡ some (record w { count = w.count + 1 }))
    own_hit same = (
      hit-window c.key window_ms c.now m map ∙ rw (same, at) (ground arith),
      still_open c.now _ (record w { count = w.count + 1 })
          (get-hit c.key window_ms c.now m map key
            ∙ rw same (rw (at, beq_self key) (ground arith))),
    )

    other_hit : (c.key == key) ≡ false → get key (hit c.key window_ms c.now m).1 ≡ some w
    other_hit away =
        still_open c.now _ w
          (get-hit c.key window_ms c.now m map key ∙ rw (away, at) (ground arith))

  granted_inside :
      (cs : List Call) (m : Dict Window) (w : Window)
      → IsMap m
      → get key m ≡ some w
      → All (λ c. c.now < w.reset_at) cs
      → granted m cs ≡ min (limit - w.count) (calls_for key cs)
  unfolding granted take
  granted_inside [] m w map at inside = omega arith
  granted_inside (c ∷ cs) m w map at inside = elim (Bool-cases (c.key == key)) [
    | inl same ↦
        let (answer, kept) = own_hit c m map w at inside.0 ((text_eq c.key key).0 same) in
        let later =
          granted_inside cs (hit c.key window_ms c.now m).1 (record w { count = w.count + 1 })
            (hit-IsMap c.key window_ms c.now m map) kept inside.1 in
        rw (same, answer) (rw later (ground arith))
    | inr away ↦ rw away (
        granted_inside cs (hit c.key window_ms c.now m).1 w (hit-IsMap c.key window_ms c.now m map)
          (other_hit c m map w at inside.0 away) inside.1)
  ]

  fresh_window : ℕ → Window
  fresh_window now = record { count = 1; reset_at = now + window_ms }

  -- The first hit of a key with no window open.
  first_hit :
      (now : ℕ) (m : Dict Window)
      → IsMap m
      → 0 < window_ms
      → live now (get key m) ≡ none
      → ((hit key window_ms now m).0 ≡ fresh_window now)
        × (get key (hit key window_ms now m).1 ≡ some (fresh_window now))
  unfolding fresh_window
  first_hit now m map long closed =
      let opened : ideal_window window_ms now (get key m) ≡ fresh_window now =
        closed_window now _ closed in
      (
        hit-window key window_ms now m map ∙ opened,
        still_open now _ (fresh_window now)
            (get-hit key window_ms now m map key ∙ rw (beq_self key) (rw opened (ground arith))),
      )
    where
      closed_window :
          (now : ℕ) (o : Option Window)
          → live now o ≡ none
          → ideal_window window_ms now o ≡ record { count = 1; reset_at = now + window_ms }
      closed_window now none e = refl
      closed_window now (some w) e = ground arith

  -- With no window open for the key, the calls of one window are allowed up to the limit, whatever
  -- calls other keys make between them: the number of calls with the key that are allowed is the
  -- smaller of the limit and of the number of such calls.
  pub granted_in_window :
      (c : Call) (cs : List Call) (m : Dict Window)
      → IsMap m
      → 0 < window_ms
      → c.key ≡ key
      → live c.now (get key m) ≡ none
      → All (λ d. d.now < c.now + window_ms) cs
      → granted m (c ∷ cs) ≡ min limit (calls_for key (c ∷ cs))
  unfolding granted take fresh_window
  granted_in_window c cs m map long same closed inside =
      let (answer, kept) = first_hit c.now m map long closed in
      let later =
        granted_inside cs (hit key window_ms c.now m).1 (fresh_window c.now)
          (hit-IsMap key window_ms c.now m map) kept inside in
      rw same (rw (answer, beq_self key) (rw later (ground arith)))
