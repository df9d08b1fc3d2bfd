-- ===== src/WriteBudgets.antt =====
-- server/src/write-budgets.ts: how fast one grant may change things. The three buckets share one
-- store. Metrics and logs are left out.
pub mod Refusals
use mcp_ui.Common.{ℕ, String, Bool, true, false, Option, none, some, ◌==◌, string_eq, if◌then◌else◌}
use Prim.Native.String.{◌++◌}
use mcp_ui.Common.Dict.{Dict}
use mcp_ui.RateLimit.{Window, BucketResult, allowed, refused, take}

pub data WriteKind : Type 0 where
  control create : WriteKind

-- The buckets of the constructor: 20 and 6 a minute, 10 an hour.
abbrev pub control_per_grant : String → ℕ → ℕ → Dict Window → BucketResult × Dict Window
control_per_grant grant_id now later store =
    take 20 60000 ("control-grant:" ++ grant_id) now later store

abbrev pub control_per_device : String → ℕ → ℕ → Dict Window → BucketResult × Dict Window
control_per_device device_id now later store =
    take 6 60000 ("control-device:" ++ device_id) now later store

abbrev pub create_per_grant : String → ℕ → ℕ → Dict Window → BucketResult × Dict Window
create_per_grant grant_id now later store =
    take 10 3600000 ("create-grant:" ++ grant_id) now later store

-- `deviceId ? …`: a missing device and an empty one are counted for the grant only.
unfoldable pub spend_device : Option String → ℕ → ℕ → Dict Window → BucketResult × Dict Window
spend_device none now later store = (allowed, store)
spend_device (some device_id) now later store =
    if device_id == "" then (allowed, store) else control_per_device device_id now later store

-- `results.find((result) => !result.ok)`: the first refusal, or none.
abbrev pub first_refusal : BucketResult → BucketResult → BucketResult
first_refusal (refused n) second = refused n
first_refusal allowed second = second

-- What is answered to a refusal: in report mode it is allowed.
abbrev pub enforced : Bool → BucketResult → BucketResult
enforced true result = result
enforced false result = allowed

-- `WriteBudgets.spend`; the flag says that WRITE_BUDGETS is not 'report'.
unfoldable pub spend :
    Bool → WriteKind → String → Option String → ℕ → ℕ → Dict Window → BucketResult × Dict Window
spend enforcing control grant_id device_id now later store =
    let (of_grant, counted) = control_per_grant grant_id now later store in
    let (of_device, left) = spend_device device_id now later counted in
    (enforced enforcing (first_refusal of_grant of_device), left)
spend enforcing create grant_id device_id now later store =
    let (of_grant, left) = create_per_grant grant_id now later store in
    (enforced enforcing of_grant, left)
