-- ===== src/RateLimit.antt =====
-- server/src/security/rate-limit.ts: fixed windows. Times are in milliseconds. The awaits of one
-- call are taken as done before the next call begins.
pub mod Windows
pub mod Limits
use mcp_ui.Common.{
  ℕ, suc, ◌+◌, ◌-◌, ◌/◌, String, Bool, true, false, Option, none, some, leb, ltb, max,
  if◌then◌else◌, List, [], ◌∷◌,
}
use mcp_ui.Common.Dict.{Dict, get, put, size, sweep}

pub record Window : Type 0 where
  pub count : ℕ
  pub reset_at : ℕ

-- `v.resetAt <= now`
abbrev pub ended : ℕ → Window → Bool
ended now w = leb w.reset_at now

abbrev pub max_windows : ℕ
max_windows = 10000

-- `this.windows.set(key, fresh)`, and the sweep of a map that has grown too large.
unfoldable pub open_window : String → ℕ → ℕ → Dict Window → Window × Dict Window
open_window key window_ms now windows =
    let fresh : Window = record { count = 1; reset_at = now + window_ms } in
    let stored = put key fresh windows in
    (fresh, if ltb max_windows (size stored) then sweep (ended now) stored else stored)

-- `MemoryBucketStore.hit`
unfoldable pub hit : String → ℕ → ℕ → Dict Window → Window × Dict Window
hit key window_ms now windows = elim (get key windows) [
  | none ↦ open_window key window_ms now windows
  | some entry ↦
      if ended now entry
      then open_window key window_ms now windows
      else let counted : Window = record entry { count = entry.count + 1 } in
        (counted, put key counted windows)
]

pub data BucketResult : Type 0 where
  allowed : BucketResult
  refused : ℕ → BucketResult

-- `Math.max(1, Math.ceil((resetAt - Date.now()) / 1000))`; a moment past the reset gives 1 too.
abbrev pub retry_after : ℕ → ℕ → ℕ
retry_after reset_at now = max 1 ((reset_at - now + 999) / 1000)

abbrev pub verdict : ℕ → ℕ → Window → BucketResult
verdict limit later w =
    if leb w.count limit then allowed else refused (retry_after w.reset_at later)

-- `bucket(store, limit, windowMs)(key)`; the second time is that of the answer.
unfoldable pub take : ℕ → ℕ → String → ℕ → ℕ → Dict Window → BucketResult × Dict Window
take limit window_ms key now later windows =
    let (w, rest) = hit key window_ms now windows in (verdict limit later w, rest)
