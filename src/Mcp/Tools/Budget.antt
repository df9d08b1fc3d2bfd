-- ===== src/Mcp/Tools/Budget.antt =====
-- server/src/mcp/tools.ts over write-budgets.ts: a change beyond its budget.
use mcp_ui.Common.{ℕ, ◌<◌, ◌≤◌, ◌≡◌, ◌≢◌, refl, String, true, Option, some, none}
use Prim.Native.String.{◌++◌}
use mcp_ui.Common.Dict.{Dict, get, IsMap}
use mcp_ui.Normalize.{Text}
use mcp_ui.Exec.{Exec}
use mcp_ui.RateLimit.{Window, BucketResult, allowed, refused}
use mcp_ui.WriteBudgets.Refusals.{spent_grant_refused}
use mcp_ui.Devices.Types.{Tables}
use mcp_ui.Devices.Control.{ControlDeviceInput}
use mcp_ui.Mcp.Policy.{Scope}
use mcp_ui.Mcp.Gate.{verified_caller}
use mcp_ui.Oauth.Verify.{Verified}
use mcp_ui.Internal.Workload.{Workload}
use mcp_ui.Internal.Service.{Payload}
use mcp_ui.Mcp.Tools.{
  ToolAnswer, tool_error, over_budget, ToolState, ToolTimes, budgeted, control_device_tool,
}

module _ {T : Type 0} (exchanger : Text → Scope → Exec Tables (T × ℕ))
    (jwt_verify : ℕ → T → Option Payload) (print : ℕ → String) (workload : Workload)
    (challenge : Option String) (request_id : String) (times : ToolTimes) where
  -- The answer says that the budget is spent; the devices and the internal tokens are as before.
  abbrev pub IsUnrun : ToolState T → ToolAnswer × ToolState T → Type 0
  IsUnrun s after =
      ((seconds : String) × (after.0 ≡ tool_error (over_budget seconds) none))
      × (after.1.tables ≡ s.tables)
      × (after.1.cache ≡ s.cache)

  budgeted-IsUnrun :
      {A : Type 0} (made : A → ToolAnswer) (verified : Verified) (credential : Text) (scope : Scope)
      (call : T → Workload → Exec Tables A) (s : ToolState T) (budget : BucketResult × Dict Window)
      → budget.0 ≢ allowed
      → IsUnrun s (
          budgeted exchanger jwt_verify print workload true challenge request_id times made verified
            credential scope call s budget)
  budgeted-IsUnrun made verified credential scope call s (refused n, windows) over =
      ((print n, refl), refl, refl)
  budgeted-IsUnrun made verified credential scope call s (allowed, windows) over =
      elim (over refl) [ ]

  -- While budgets are enforced, control_device of a grant whose window of the minute already counts
  -- 20 changes answers that the budget is spent: no device is touched and no token is exchanged.
  pub control_device_tool-IsUnrun :
      (input : ControlDeviceInput) (verified : Verified) (credential : Text) (s : ToolState T)
      (w : Window)
      → IsMap s.windows
      → get ("control-grant:" ++ verified.grant_id) s.windows ≡ some w
      → times.spent.0 < w.reset_at
      → 20 ≤ w.count
      → IsUnrun s (
          control_device_tool exchanger jwt_verify print workload true challenge request_id times
            input
            (verified_caller verified credential)
            s)
  unfolding control_device_tool
  control_device_tool-IsUnrun input verified credential s w map at live full =
      budgeted-IsUnrun _ verified credential _ _ s _ (
        spent_grant_refused verified.grant_id _ times.spent.0 times.spent.1 s.windows w map at live
          full)
