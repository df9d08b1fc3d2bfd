-- ===== src/Internal/Service.antt =====
-- server/src/device-service: what the Device Service checks before it does anything, and its
-- operations. The check of the signature, with issuer, audience, type and times, is a parameter.
use mcp_ui.Common.{
  ℕ, String, Bool, not, Option, none, some, List, ◌==◌, string_eq, option_eq, if◌then◌else◌,
}
use mcp_ui.Errors.{Failure, other_error}
use mcp_ui.Exec.{Result, ok, err, Exec}
use mcp_ui.Mcp.Policy.{Scope, devices_read, devices_control, devices_create}
use mcp_ui.Devices.Types.{Channel, mcp, native, Identity, Device, Tables, Env}
use mcp_ui.Devices.Add.{AddDeviceInput, add_device}
use mcp_ui.Devices.Read.{list_devices, get_device}
use mcp_ui.Devices.Control.{ControlDeviceInput, control_device}
use mcp_ui.Internal.Workload.{Workload, ClaimObject, confirms, workload_uri}

-- The claims of a verified token; a claim that is no text is none.
pub record Payload : Type 0 where
  pub scope : Option String
  pub sub : Option String
  pub client_id : Option String
  pub grant_id : Option String
  pub channel : Option String
  pub auth_method : Option String
  pub act_sub : Option String
  pub cnf : Option ClaimObject

abbrev pub scope_name : Scope → String
scope_name devices_read = "devices:read"
scope_name devices_control = "devices:control"
scope_name devices_create = "devices:create"

-- `InternalTokenRefused`, a failure of its own.
abbrev pub internal_token_refused : Failure
internal_token_refused = other_error "InternalTokenRefused"

abbrev pub channel_named : Option String → Option Channel
channel_named none = none
channel_named (some name) =
    if name == "native" then some native else (if name == "mcp" then some mcp else none)

abbrev or_unknown : Option String → String
or_unknown none = "unknown"
or_unknown (some method) = method

-- The identity, where all its claims are texts and the channel is known.
abbrev pub identity_of :
    String
    → Payload
    → Workload
    → Option String
    → Option String
    → Option String
    → Option Channel
    → Result Identity
identity_of request_id payload peer (some sub) (some client_id) (some grant_id) (some channel) =
    ok (record {
      account_id = sub;
      channel = channel;
      request_id = some request_id;
      client_id = some client_id;
      grant_id = some grant_id;
      via = payload.act_sub;
      auth_method = some (or_unknown payload.auth_method);
    })
identity_of request_id payload peer _ _ _ _ = err internal_token_refused

abbrev pub check_payload : Workload → Scope → String → Option Payload → Result Identity
check_payload peer required request_id none = err internal_token_refused
check_payload peer required request_id (some payload) =
    if not (payload.act_sub == some (workload_uri peer))
    then err internal_token_refused
    else (if not (confirms payload.cnf peer.cnf)
        then err internal_token_refused
        else (if not (payload.scope == some (scope_name required))
            then err internal_token_refused
            else identity_of request_id payload peer payload.sub payload.client_id payload.grant_id
                (channel_named payload.channel)))

-- `verifyInternalToken`
unfoldable pub verify_internal_token :
    {T : Type 0} → (ℕ → T → Option Payload) → ℕ → T → Workload → Scope → String → Result Identity
verify_internal_token jwt_verify now token peer required request_id =
    check_payload peer required request_id (jwt_verify now token)

abbrev pub with_identity {ℓ} :
    {A : Type ℓ} → Result Identity → (Identity → Exec Tables A) → Exec Tables A
with_identity (err e) operation t = (err e, t)
with_identity (ok identity) operation t = operation identity t

-- `createDeviceService`
module _ {T : Type 0} (jwt_verify : ℕ → T → Option Payload) (now : ℕ) (token : T) (peer : Workload)
    (request_id : String) where
  abbrev verified : Scope → Result Identity
  verified required = verify_internal_token jwt_verify now token peer required request_id

  unfoldable pub service_list : (String → String → Bool) → Exec Tables (List Device)
  service_list id_leb = with_identity (verified devices_read) (list_devices id_leb)

  unfoldable pub service_get : String → Exec Tables Device
  service_get device_id = with_identity (verified devices_read) (λ i. get_device i device_id)

  unfoldable pub service_add : Env → String → AddDeviceInput → Exec Tables Device
  service_add env new_id input =
      with_identity (verified devices_create) (λ i. add_device env now new_id i input)

  unfoldable pub service_control : ControlDeviceInput → Exec Tables Device
  service_control input = with_identity (verified devices_control) (λ i. control_device now i input)
