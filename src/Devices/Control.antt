-- ===== src/Devices/Control.antt =====
-- `controlDevice` of server/src/domain/devices.ts.
use mcp_ui.Common.{
  ℕ, ◌+◌, String, Bool, ◌&&◌, not, Option, none, some, leb, ◌==◌, nat_eq, string_eq, if◌then◌else◌,
}
use mcp_ui.Common.Rows.{first, update}
use mcp_ui.Errors.{
  validation_failed, invalid_state, device_not_found, device_version_conflict, throw_code,
  throw_field,
}
use mcp_ui.Exec.{Exec, pure, throw, gets, modify, transaction, ◌>>=◌, ◌>>◌}
use mcp_ui.Devices.Types.{
  DeviceState, on, off, state_beq, Identity, DeviceRow, Device, to_device, device_control, accepted,
  rejected, Tables, record_audit,
}
use mcp_ui.Devices.Read.{owned_device}

-- The number that a caller sends as the version that it saw.
pub data SentVersion : Type 0 where
  whole : ℕ → SentVersion
  negative fractional : SentVersion

pub record ControlDeviceInput : Type 0 where
  pub device_id : String
  pub state : String
  pub expected_version : SentVersion

unfoldable pub state_named : String → Option DeviceState
state_named s = if s == "on" then some on else if s == "off" then some off else none

-- `Number.isInteger(v) && v >= 1`
unfoldable pub positive_version : SentVersion → Option ℕ
positive_version (whole v) = if leb 1 v then some v else none
positive_version _ = none

pub data Outcome : Type 0 where
  done : Device → Outcome
  not_found : Outcome
  version_conflict : DeviceState → Outcome

-- The WHERE of the conditional UPDATE.
abbrev pub may_change : String → String → ℕ → DeviceState → DeviceRow → Bool
may_change id account version state row =
    row.id == id
    && (row.owner_id == account && (row.version == version && not (state_beq row.state state)))

-- Its SET.
abbrev pub changed : ℕ → DeviceState → DeviceRow → DeviceRow
changed now state row = record row { state = state; version = row.version + 1; updated_at = now }

abbrev pub opposite : DeviceState → DeviceState
opposite on = off
opposite off = on

-- What the second read tells: absent, another version, or already in the requested state.
unfoldable pub classify : ℕ → Option DeviceRow → Outcome
unfolding to_device
classify version none = not_found
classify version (some row) =
    if row.version == version then done (to_device row) else version_conflict row.state

-- The body of the transaction. UPDATE … RETURNING gives the row that it wrote.
unfoldable pub control_tx : ℕ → Identity → String → DeviceState → ℕ → Exec Tables Outcome
unfolding record_audit to_device classify
control_tx now identity id state version = do
  found ← gets (λ t. first (may_change id identity.account_id version state) t.devices)
  elim found [
    | some row ↦ do
      modify (λ t. record t {
        devices =
            update (may_change id identity.account_id version state) (changed now state) t.devices;
      })
      record_audit identity (record {
        action = device_control;
        device_id = some row.id;
        old_state = some (opposite state);
        new_state = some state;
        outcome = accepted;
      })
      pure (done (to_device (changed now state row)))
    | none ↦ do
      current ← gets (λ t. first (owned_device id identity.account_id) t.devices)
      pure (classify version current)
  ]

-- What follows the transaction.
unfoldable pub answer : Identity → String → DeviceState → Outcome → Exec Tables Device
unfolding record_audit
answer identity id state (done device) = pure device
answer identity id state not_found = throw (throw_code device_not_found)
answer identity id state (version_conflict current) = do
  record_audit identity (record {
    action = device_control;
    device_id = some id;
    old_state = some current;
    new_state = some state;
    outcome = rejected;
  })
  throw (throw_code device_version_conflict)

unfoldable pub control_device : ℕ → Identity → ControlDeviceInput → Exec Tables Device
unfolding positive_version
control_device now identity input = elim (state_named input.state) [
  | none ↦ throw (throw_code invalid_state)
  | some state ↦ elim (positive_version input.expected_version) [
    | none ↦ throw (
        throw_field validation_failed "expectedVersion must be a positive integer."
          "expectedVersion")
    | some version ↦ do
      outcome ← transaction (control_tx now identity input.device_id state version)
      answer identity input.device_id state outcome
  ]
]
