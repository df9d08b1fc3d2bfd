-- ===== src/Mcp/Tools/Tests.antt =====
-- Concrete calls of the device tools.
use mcp_ui.Common.{ℕ, ◌≡◌, refl, arith, String, true, Option, none, some, [], ◌∷◌}
use mcp_ui.Common.Dict.{get, size}
use mcp_ui.Normalize.{Text, display_device_name, normalize_device_name}
use mcp_ui.Common.Rows.{first, delete, count}
use mcp_ui.Exec.{ok, Exec}
use mcp_ui.RateLimit.{Window, take}
use mcp_ui.WriteBudgets.{spend}
use mcp_ui.Devices.Add.{add_device, add_tx, create}
use mcp_ui.Devices.Types.{Tables, Env, off, to_device}
use mcp_ui.Devices.Control.{ControlDeviceInput, SentVersion}
use mcp_ui.Devices.Run.{empty, empty-IsValid}
use mcp_ui.Devices.Invariant.{IsValid}
use mcp_ui.Mcp.Policy.{Scope}
use mcp_ui.Mcp.Gate.{verified_caller}
use mcp_ui.Oauth.Verify.{Verified}
use mcp_ui.Internal.Workload.{Workload, Confirmation, mcp_rs, confirms, workload_uri}
use mcp_ui.Internal.Service.{Payload, verify_internal_token, service_add}
use mcp_ui.Internal.Cache.{run, token_for, remember}
use mcp_ui.Mcp.Tools.{
  ToolState, ToolTimes, add_call, call_tool, add_device_tool, control_device_tool,
}
use mcp_ui.Mcp.Tools.Kept.{call_tool-IsValid}
use mcp_ui.Mcp.Tools.Budget.{IsUnrun, control_device_tool-IsUnrun}

abbrev env : Env
env = record {
  unicode = record { nfkc = λ s. s; to_lower_case = λ s. s };
  sha256_hex = λ _. "print";
}

abbrev caller : Verified
caller = record {
  account_id = "alice";
  client_id = "client";
  grant_id = "g1";
  scopes = [];
  expires_in = 600;
  cnf_jkt = none;
}

abbrev adapter : Workload
adapter = record { name = mcp_rs; cnf = Confirmation.jkt "bound" }

abbrev next : Text → Scope → Exec Tables (ℕ × ℕ)
next credential scope t = (ok (7, 60), t)

-- The check of a signature that reads a token for creation.
abbrev jwt_verify : ℕ → ℕ → Option Payload
jwt_verify now token = some (record {
  scope = some "devices:create";
  sub = some "alice";
  client_id = some "client";
  grant_id = some "g1";
  channel = some "mcp";
  auth_method = some "oauth";
  act_sub = some "spiffe://iot-switch/mcp-rs";
  cnf = some (("jkt", some "bound") ∷ []);
})

abbrev print : ℕ → String
print n = "30"

abbrev times : ToolTimes
times = record { spent = (30, 30); attempted = (30, 30); retried = (31, 31); at = 30 }

abbrev start : ToolState ℕ
start = record { windows = []; cache = []; tables = empty }

-- A lamp is added.
added_lamp :
    (call_tool next jwt_verify print adapter true none "r" times
      (add_call env "d1" (76 ∷ []))
      (verified_caller caller [])
      start).1.tables.devices
    ≡ record {
      id = "d1";
      owner_id = "alice";
      name = 76 ∷ [];
      normalized_name = 76 ∷ [];
      state = off;
      version = 1;
      created_at = 30;
      updated_at = 30;
    }
      ∷ []
unfolding call_tool add_device_tool service_add run token_for first delete remember
    verify_internal_token confirms workload_uri get size spend take add_device add_tx create count
    display_device_name normalize_device_name to_device mcp_ui.RateLimit.hit
    mcp_ui.RateLimit.open_window mcp_ui.Normalize.squeeze mcp_ui.Normalize.trim
    mcp_ui.Normalize.trim_start mcp_ui.Normalize.is_space
added_lamp = refl

call_tool-IsValid_example :
    IsValid
      (call_tool next jwt_verify print adapter true none "r" times
        (add_call env "d1" (76 ∷ []))
        (verified_caller caller [])
        start).1.tables
call_tool-IsValid_example =
    call_tool-IsValid next jwt_verify print adapter true none "r" times (λ c s t. refl)
      (add_call env "d1" (76 ∷ [])) (verified_caller caller []) start empty-IsValid

abbrev full_minute : Window
full_minute = record { count = 20; reset_at = 60000 }

abbrev exhausted : ToolState ℕ
exhausted = record start { windows = ("control-grant:g1", full_minute) ∷ [] }

abbrev switch_on : ControlDeviceInput
switch_on = record { device_id = "d1"; state = "on"; expected_version = SentVersion.whole 1 }

exhausted_at : get "control-grant:g1" exhausted.windows ≡ some full_minute
unfolding get
exhausted_at = refl

control_device_tool-IsUnrun_example :
    IsUnrun next jwt_verify print adapter none "r" times exhausted (
      control_device_tool next jwt_verify print adapter true none "r" times switch_on
        (verified_caller caller [])
        exhausted)
control_device_tool-IsUnrun_example =
    control_device_tool-IsUnrun next jwt_verify print adapter none "r" times switch_on caller []
      exhausted full_minute (tt, tt) exhausted_at (omega arith) (omega arith)
