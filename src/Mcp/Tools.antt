-- ===== src/Mcp/Tools.antt =====
-- server/src/mcp/tools.ts: the handlers of the device tools. An answer keeps the content of its
-- text and its structured content; the titles and the schemas of the tools are left out.
pub mod Kept
pub mod Budget
mod Tests
use mcp_ui.Common.{ℕ, String, Bool, Option, none, some, List}
use mcp_ui.Common.Dict.{Dict}
use mcp_ui.Normalize.{Text}
use mcp_ui.Errors.{
  ErrorCode, Failure, app, unique_violation, other_error, unauthenticated, rate_limited,
  internal_error, app_error,
}
use mcp_ui.Exec.{Result, ok, err, Exec}
use mcp_ui.RateLimit.{Window, BucketResult, allowed, refused}
use mcp_ui.WriteBudgets.{WriteKind, control, create, spend}
use mcp_ui.Accounts.{Account, AccountRow, get_account}
use mcp_ui.Devices.Types.{Device, Tables, Env}
use mcp_ui.Devices.Add.{AddDeviceInput}
use mcp_ui.Devices.Control.{ControlDeviceInput}
use mcp_ui.Mcp.Policy.{Scope, devices_read, devices_control, devices_create}
use mcp_ui.Mcp.Gate.{Caller, anonymous, verified_caller}
use mcp_ui.Oauth.Verify.{Verified}
use mcp_ui.Internal.Workload.{Workload}
use mcp_ui.Internal.Service.{Payload, service_list, service_get, service_add, service_control}
use mcp_ui.Internal.Cache.{CacheEntry, CacheCaller, run}
use Prim.Native.String.{◌++◌}

pub data ToolAnswer : Type 0 where
  devices_listed : List Device → ToolAnswer
  device_given device_added : Device → ToolAnswer
  auth_status : Option Account → ToolAnswer
  tool_failed : ErrorCode → String → Option String → ToolAnswer

-- `toolError`
unfoldable pub tool_error : Failure → Option String → ToolAnswer
tool_error (app e) challenge = tool_failed e.code e.message challenge
tool_error unique_violation challenge = tool_failed internal_error "Unexpected error." challenge
tool_error (other_error _) challenge = tool_failed internal_error "Unexpected error." challenge

-- `unauthenticated`
abbrev pub no_identity : Failure
no_identity = app (app_error unauthenticated (some "No verified identity on this request.") none)

-- `overBudget`, of the printed number of seconds.
abbrev pub over_budget : String → Failure
over_budget seconds = app (
    app_error rate_limited
      (some ("Too many changes in a short time. Try again in " ++ (seconds ++ " seconds."))) none)

-- A call of a device tool with its arguments; the id and the order of texts come with it.
pub data ToolCall : Type 0 where
  list_call : (String → String → Bool) → ToolCall
  get_call : String → ToolCall
  control_call : ControlDeviceInput → ToolCall
  add_call : Env → String → Text → ToolCall

-- What the handlers work on: the write budgets, the adapter's cache, the devices.
pub record ToolState (T : Type 0) : Type 0 where
  pub windows : Dict Window
  pub cache : List (CacheEntry T)
  pub tables : Tables

-- The moments at which a handler reads the clock.
pub record ToolTimes : Type 0 where
  pub spent : ℕ × ℕ
  pub attempted : ℕ × ℕ
  pub retried : ℕ × ℕ
  pub at : ℕ

-- The exchange, the signature's check and the printing of a number are parameters.
module _ {T : Type 0} (exchanger : Text → Scope → Exec Tables (T × ℕ))
    (jwt_verify : ℕ → T → Option Payload) (print : ℕ → String) (workload : Workload)
    (enforcing : Bool) (challenge : Option String) (request_id : String) (times : ToolTimes) where
  abbrev pub answered : {A : Type 0} → (A → ToolAnswer) → Result A → ToolAnswer
  answered made (ok a) = made a
  answered made (err e) = tool_error e none

  abbrev pub kept :
      {A : Type 0}
      → (A → ToolAnswer)
      → Dict Window
      → Result A × (List (CacheEntry T) × Tables)
      → ToolAnswer × ToolState T
  kept made windows (answer, (cache, tables)) =
      (answered made answer, record { windows = windows; cache = cache; tables = tables })

  -- `exchange.run` in a handler, whose failures are answers.
  abbrev pub run_tool :
      {A : Type 0}
      → (A → ToolAnswer)
      → Verified
      → Text
      → Scope
      → (T → Workload → Exec Tables A)
      → Dict Window
      → ToolState T
      → ToolAnswer × ToolState T
  run_tool made verified credential scope call windows s = kept made windows (
      run workload exchanger (record { verified = verified; credential = credential }) scope call
        times.attempted times.retried (s.cache, s.tables))

  -- A change within its budget is run; one that is not is refused.
  abbrev pub budgeted :
      {A : Type 0}
      → (A → ToolAnswer)
      → Verified
      → Text
      → Scope
      → (T → Workload → Exec Tables A)
      → ToolState T
      → BucketResult × Dict Window
      → ToolAnswer × ToolState T
  budgeted made verified credential scope call s (refused retry_after, windows) =
      (tool_error (over_budget (print retry_after)) none, record s { windows = windows })
  budgeted made verified credential scope call s (allowed, windows) =
      run_tool made verified credential scope call windows s

  -- list_devices
  unfoldable pub list_devices_tool :
      (String → String → Bool) → Caller → ToolState T → ToolAnswer × ToolState T
  list_devices_tool id_leb anonymous s = (tool_error no_identity challenge, s)
  list_devices_tool id_leb (verified_caller verified credential) s =
      run_tool devices_listed verified credential devices_read
        (λ token peer. service_list jwt_verify times.at token peer request_id id_leb) s.windows s

  -- get_device
  unfoldable pub get_device_tool : String → Caller → ToolState T → ToolAnswer × ToolState T
  get_device_tool device_id anonymous s = (tool_error no_identity challenge, s)
  get_device_tool device_id (verified_caller verified credential) s =
      run_tool device_given verified credential devices_read
        (λ token peer. service_get jwt_verify times.at token peer request_id device_id) s.windows s

  -- control_device
  unfoldable pub control_device_tool :
      ControlDeviceInput → Caller → ToolState T → ToolAnswer × ToolState T
  control_device_tool input anonymous s = (tool_error no_identity challenge, s)
  control_device_tool input (verified_caller verified credential) s =
      budgeted device_given verified credential devices_control
        (λ token peer. service_control jwt_verify times.at token peer request_id input) s
        (spend enforcing control verified.grant_id
          (some (verified.account_id ++ (":" ++ input.device_id))) times.spent.0 times.spent.1
          s.windows)

  -- add_device
  unfoldable pub add_device_tool :
      Env → String → Text → Caller → ToolState T → ToolAnswer × ToolState T
  add_device_tool env new_id name anonymous s = (tool_error no_identity challenge, s)
  add_device_tool env new_id name (verified_caller verified credential) s =
      budgeted device_added verified credential devices_create
        (λ token peer.
          service_add jwt_verify times.at token peer request_id env new_id
            (record { name = some name; idempotency_key = none }))
        s (spend enforcing create verified.grant_id none times.spent.0 times.spent.1 s.windows)

  -- The handlers that `registerDeviceTools` registers for the devices.
  unfoldable pub call_tool : ToolCall → Caller → ToolState T → ToolAnswer × ToolState T
  call_tool (list_call id_leb) = list_devices_tool id_leb
  call_tool (get_call device_id) = get_device_tool device_id
  call_tool (control_call input) = control_device_tool input
  call_tool (add_call env new_id name) = add_device_tool env new_id name

-- get_auth_status
unfoldable pub auth_status_tool : List AccountRow → Caller → ToolAnswer
auth_status_tool accounts anonymous = auth_status none
auth_status_tool accounts (verified_caller verified credential) =
    auth_status (get_account verified.account_id accounts)
