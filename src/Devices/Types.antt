-- ===== src/Devices/Types.antt =====
-- server/src/domain/types.ts, the rows of server/src/db/migrations.ts that the device rules use,
-- and server/src/domain/audit.ts.
use mcp_ui.Common.{ℕ, String, Bool, true, false, Option, List, ◌∷◌}
use mcp_ui.Normalize.{Text, Unicode}
use mcp_ui.Exec.{Exec, modify}

pub data DeviceState : Type 0 where
  on off : DeviceState

abbrev pub state_beq : DeviceState → DeviceState → Bool
state_beq on on = true
state_beq off off = true
state_beq _ _ = false

pub data Channel : Type 0 where
  native mcp internal : Channel

pub record Identity : Type 0 where
  pub account_id : String
  pub channel : Channel
  pub request_id : Option String
  pub client_id : Option String
  pub grant_id : Option String
  pub via : Option String
  pub auth_method : Option String

pub record DeviceRow : Type 0 where
  pub id : String
  pub owner_id : String
  pub name : Text
  pub normalized_name : Text
  pub state : DeviceState
  pub version : ℕ
  pub created_at : ℕ
  pub updated_at : ℕ

pub record Device : Type 0 where
  pub id : String
  pub name : Text
  pub state : DeviceState
  pub version : ℕ
  pub created_at : ℕ
  pub updated_at : ℕ

unfoldable pub to_device : DeviceRow → Device
to_device row = record {
  id = row.id;
  name = row.name;
  state = row.state;
  version = row.version;
  created_at = row.created_at;
  updated_at = row.updated_at;
}

-- A row of idempotency_keys; its endpoint is always 'POST /v1/devices'.
pub record KeyRow : Type 0 where
  pub account_id : String
  pub key : String
  pub device_id : String
  pub request_fingerprint : Option String

pub data AuditAction : Type 0 where
  device_create device_control : AuditAction

pub data AuditOutcome : Type 0 where
  accepted rejected : AuditOutcome

pub record AuditEvent : Type 0 where
  pub action : AuditAction
  pub device_id : Option String
  pub old_state : Option DeviceState
  pub new_state : Option DeviceState
  pub outcome : AuditOutcome

pub record AuditRow : Type 0 where
  pub actor : Identity
  pub event : AuditEvent

pub record Tables : Type 0 where
  pub devices : List DeviceRow
  pub idempotency_keys : List KeyRow
  pub audit_events : List AuditRow

-- `record` of audit.ts: one INSERT with the whole identity.
unfoldable pub record_audit : Identity → AuditEvent → Exec Tables (Unit {0})
record_audit identity event =
    modify
      λ t. record t { audit_events = record { actor = identity; event = event } ∷ t.audit_events }

-- What the device rules take from elsewhere: the Unicode tables, and SHA-256 in hex.
pub record Env : Type 0 where
  pub unicode : Unicode
  pub sha256_hex : Text → String
