-- ===== src/Internal/Workload.antt =====
-- server/src/security/workload.ts: which component is calling.
use mcp_ui.Common.{
  String, Bool, false, ◌&&◌, Option, none, some, ◌==◌, nat_eq, string_eq, option_eq, if◌then◌else◌,
}
use mcp_ui.Common.Dict.{Dict, get, size}
use Prim.Native.String.{◌++◌ as ◌then_text◌}

pub data WorkloadName : Type 0 where
  mcp_rs api_gw : WorkloadName

-- A `Confirmation`: a value of this process, or the thumbprint of a certificate.
pub data Confirmation : Type 0 where
  jkt x5t_s256 : String → Confirmation

pub record Workload : Type 0 where
  pub name : WorkloadName
  pub cnf : Confirmation

abbrev pub name_text : WorkloadName → String
name_text mcp_rs = "mcp-rs"
name_text api_gw = "api-gw"

-- `createWorkload`, of the hash of the random bytes.
unfoldable pub create_workload : WorkloadName → String → Workload
create_workload name random_hash = record { name = name; cnf = jkt random_hash }

-- `certificateWorkload`, of the hash of the certificate.
unfoldable pub certificate_workload : WorkloadName → String → Workload
certificate_workload name certificate_hash = record { name = name; cnf = x5t_s256 certificate_hash }

-- An object of the claims: a value that is no text is none.
abbrev pub ClaimObject : Type 0
ClaimObject = Dict (Option String)

-- `Object.entries` of a confirmation, which has one.
abbrev pub entry_of : Confirmation → String × String
entry_of (jkt value) = ("jkt", value)
entry_of (x5t_s256 value) = ("x5t#S256", value)

-- `confirms`
unfoldable pub confirms : Option ClaimObject → Confirmation → Bool
confirms none expected = false
confirms (some presented) expected =
    let (key, value) = entry_of expected in
    get key presented == some (some value) && size presented == 1

-- `workloadUri`
unfoldable pub workload_uri : Workload → String
workload_uri workload = "spiffe://iot-switch/" then_text name_text workload.name

-- `workloadNamed`
unfoldable pub workload_named : String → Option WorkloadName
workload_named uri =
    if uri == "spiffe://iot-switch/mcp-rs"
    then some mcp_rs
    else (if uri == "spiffe://iot-switch/api-gw" then some api_gw else none)
