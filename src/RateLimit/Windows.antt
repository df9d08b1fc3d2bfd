-- ===== src/RateLimit/Windows.antt =====
-- The memory store against a store that forgets nothing: sweeping is never seen.
use mcp_ui.Common.{
  ℕ, ◌+◌, ◌≤◌, ◌≡◌, refl, String, Option, none, some, arith, Bool-cases, Option-cases, inl, inr,
  ltb, ◌==◌, string_eq, if◌then◌else◌, List, [], ◌∷◌, ap, ◌∙◌,
}
use mathlib.Core.Path.{ap₂}
use mcp_ui.Common.Dict.{
  Dict, get, put, size, IsMap, get-put, get-sweep, put-IsMap, sweep-IsMap, unless,
}
use mcp_ui.RateLimit.{Window, ended, open_window, hit, max_windows}

-- A store as a function from keys, with no bound on its size.
abbrev pub Ideal : Type 0
Ideal = String → Option Window

abbrev pub ideal_window : ℕ → ℕ → Option Window → Window
ideal_window window_ms now none = record { count = 1; reset_at = now + window_ms }
ideal_window window_ms now (some w) =
    if ended now w
    then record { count = 1; reset_at = now + window_ms }
    else record w { count = w.count + 1 }

unfoldable pub ideal_hit : String → ℕ → ℕ → Ideal → Window × Ideal
ideal_hit key window_ms now s =
    let w = ideal_window window_ms now (s key) in (w, λ j. if key == j then some w else s j)

-- The window of a key, if it has not ended.
abbrev pub live : ℕ → Option Window → Option Window
live now = unless (ended now)

pub record Simulates (now : ℕ) (windows : Dict Window) (s : Ideal) : Type 0 where
  pub map : IsMap windows
  pub same : (key : String) → live now (get key windows) ≡ live now (s key)

pub record Hit : Type 0 where
  pub key : String
  pub window_ms : ℕ
  pub time : ℕ

pub run : Dict Window → List Hit → List Window
run m [] = []
run m (h ∷ hs) = let (w, m') = hit h.key h.window_ms h.time m in w ∷ run m' hs

pub ideal_run : Ideal → List Hit → List Window
ideal_run s [] = []
ideal_run s (h ∷ hs) = let (w, s') = ideal_hit h.key h.window_ms h.time s in w ∷ ideal_run s' hs

-- The clock does not go back.
abbrev pub Forward : ℕ → List Hit → Type 0
Forward now [] = Unit
Forward now (h ∷ hs) = (now ≤ h.time) × Forward h.time hs

-- What is live later was live before.
live_later :
    (now later : ℕ) (a b : Option Window)
    → now ≤ later
    → live now a ≡ live now b
    → live later a ≡ live later b
live_later now later none none le e = refl
live_later now later none (some b) le e = ground arith
live_later now later (some a) none le e = ground arith
live_later now later (some a) (some b) le e = ground arith

ideal_window-live :
    (window_ms now : ℕ) (a b : Option Window)
    → live now a ≡ live now b
    → ideal_window window_ms now a ≡ ideal_window window_ms now b
ideal_window-live window_ms now none none e = refl
ideal_window-live window_ms now none (some b) e = ground arith
ideal_window-live window_ms now (some a) none e = ground arith
ideal_window-live window_ms now (some a) (some b) e = ground arith

live-live : (now : ℕ) (a : Option Window) → live now (unless (ended now) a) ≡ live now a
live-live now none = refl
live-live now (some a) = ground arith

module _ (key : String) (window_ms now : ℕ) (m : Dict Window) (map : IsMap m) where
  abbrev fresh : Window
  fresh = record { count = 1; reset_at = now + window_ms }

  opened-IsMap : IsMap (open_window key window_ms now m).1
  unfolding open_window
  opened-IsMap = elim (Bool-cases (ltb max_windows (size (put key fresh m)))) [
    | inl large ↦ rw large (sweep-IsMap (ended now) (put key fresh m) (put-IsMap key fresh m map))
    | inr small ↦ rw small (put-IsMap key fresh m map)
  ]

  get-opened :
      (j : String)
      → live now (get j (open_window key window_ms now m).1)
        ≡ live now (if key == j then some fresh else get j m)
  unfolding open_window
  get-opened j = elim (Bool-cases (ltb max_windows (size (put key fresh m)))) [
    | inl large ↦ rw large (
        rw (get-sweep (ended now) j (put key fresh m) (put-IsMap key fresh m map))
          (rw (get-put key j fresh m) (live-live now _)))
    | inr small ↦ rw small (ap (live now) (get-put key j fresh m))
  ]

  -- The window that a hit answers with, and every window that is live after it.
  pub hit-window : (hit key window_ms now m).0 ≡ ideal_window window_ms now (get key m)
  unfolding hit open_window
  hit-window = elim (Option-cases (get key m)) [
    | inl e ↦ rw (e, hit)
    | inr (w, e) ↦ rw (e, hit) (ground arith)
  ]

  pub get-hit :
      (j : String)
      → live now (get j (hit key window_ms now m).1)
        ≡ live now (if key == j then some (ideal_window window_ms now (get key m)) else get j m)
  unfolding hit
  get-hit j = elim (Option-cases (get key m)) [
    | inl e ↦ rw (e, hit) (get-opened j)
    | inr (w, e) ↦ elim (Bool-cases (ended now w)) [
      | inl over ↦ rw (e, hit) (rw over (get-opened j))
      | inr open' ↦
          rw (e, hit)
            (rw open' (ap (live now) (get-put key j (record w { count = w.count + 1 }) m)))
    ]
  ]

  pub hit-IsMap : IsMap (hit key window_ms now m).1
  unfolding hit
  hit-IsMap = elim (Option-cases (get key m)) [
    | inl e ↦ rw (e, hit) opened-IsMap
    | inr (w, e) ↦ elim (Bool-cases (ended now w)) [
      | inl over ↦ rw (e, hit) (rw over opened-IsMap)
      | inr open' ↦ rw (e, hit) (rw open' (put-IsMap key (record w { count = w.count + 1 }) m map))
    ]
  ]

module _ (key : String) (window_ms now : ℕ) (m : Dict Window) (s : Ideal)
    (sim : Simulates now m s) where
  same_window : ideal_window window_ms now (get key m) ≡ ideal_window window_ms now (s key)
  same_window = ideal_window-live window_ms now (get key m) (s key) (sim.same key)

  hit-Simulates : Simulates now (hit key window_ms now m).1 (ideal_hit key window_ms now s).1
  unfolding ideal_hit
  hit-Simulates = record {
    map = hit-IsMap key window_ms now m sim.map;
    same = λ j. get-hit key window_ms now m sim.map j ∙ at j;
  }
    where
      at :
          (j : String)
          → live now (if key == j then some (ideal_window window_ms now (get key m)) else get j m)
            ≡ live now (if key == j then some (ideal_window window_ms now (s key)) else s j)
      at j = elim (Bool-cases (key == j)) [
        | inl here ↦ rw here (ap (λ w. live now (some w)) same_window)
        | inr away ↦ rw away (sim.same j)
      ]

Simulates-later :
    {now later : ℕ} {m : Dict Window} {s : Ideal}
    → now ≤ later
    → Simulates now m s
    → Simulates later m s
Simulates-later {now} {later} {m} {s} le sim = record {
  map = sim.map;
  same = λ k. live_later now later (get k m) (s k) le (sim.same k);
}

run-ideal_run :
    (now : ℕ) (m : Dict Window) (s : Ideal) (hs : List Hit)
    → Forward now hs
    → Simulates now m s
    → run m hs ≡ ideal_run s hs
unfolding run ideal_run ideal_hit
run-ideal_run now m s [] f sim = refl
run-ideal_run now m s (h ∷ hs) f sim =
    let here = Simulates-later f.0 sim in
    let answer =
      hit-window h.key h.window_ms h.time m sim.map
      ∙ same_window h.key h.window_ms h.time m s here in
    ap₂ (◌∷◌) answer
      (run-ideal_run h.time _ _ hs f.1 (hit-Simulates h.key h.window_ms h.time m s here))

-- However large the map grows and whenever it is swept, the store in memory answers every
-- sequence of hits as a store that never forgets a window would, as long as the clock does not go
-- back.
pub sweeping_unseen : (hs : List Hit) → Forward 0 hs → run [] hs ≡ ideal_run (λ _. none) hs
sweeping_unseen hs f =
    run-ideal_run 0 [] (λ _. none) hs f (record { map = tt; same = λ k. unfold get in refl })
