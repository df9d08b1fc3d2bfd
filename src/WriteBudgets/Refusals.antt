-- ===== src/WriteBudgets/Refusals.antt =====
-- When a write is refused.
use mcp_ui.Common.{
  ℕ, ◌<◌, ◌≤◌, ◌≡◌, ◌≢◌, refl, sym, ap, ◌∙◌, String, true, Option, some, arith, string_eq,
}
use Prim.Native.String.{◌++◌}
use mcp_ui.Common.Dict.{Dict, get, IsMap}
use mcp_ui.RateLimit.{Window, BucketResult, allowed, refused, take, verdict}
use mcp_ui.RateLimit.Windows.{hit-window, ideal_window}
use mcp_ui.WriteBudgets.{control, spend, control_per_grant, first_refusal, enforced}

-- While budgets are enforced, a change by a grant whose window of the minute already counts 20 is
-- refused, whatever the device and its own budget.
pub spent_grant_refused :
    (grant_id : String) (device_id : Option String) (now later : ℕ) (store : Dict Window)
    (w : Window)
    → IsMap store
    → get ("control-grant:" ++ grant_id) store ≡ some w
    → now < w.reset_at
    → 20 ≤ w.count
    → (spend true control grant_id device_id now later store).0 ≢ allowed
unfolding spend take
spent_grant_refused grant_id device_id now later store w map at live full e =
    let answer = hit-window ("control-grant:" ++ grant_id) 60000 now store map in
    let counted = ap (verdict 20 later) (answer ∙ ap (ideal_window 60000 now) at) in
    let over : verdict 20 later (ideal_window 60000 now (some w)) ≢ allowed = λ h. over_limit h in
    over (sym counted ∙ both (control_per_grant grant_id now later store).0 _ e)
  where
    over_limit : verdict 20 later (ideal_window 60000 now (some w)) ≡ allowed → ⊥
    over_limit h = ground arith

    both : (a b : BucketResult) → enforced true (first_refusal a b) ≡ allowed → a ≡ allowed
    both allowed b h = refl
    both (refused n) b h = cc
