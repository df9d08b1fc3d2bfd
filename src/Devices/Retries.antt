-- ===== src/Devices/Retries.antt =====
-- Idempotency keys of `add_device` over any history of calls.
use mcp_ui.Common.{◌≡◌, String, some, ◌==◌, string_eq}
use mcp_ui.Common.Rows.{first}
use mcp_ui.Devices.Types.{DeviceRow, Device, KeyRow, Tables}
use mcp_ui.Devices.Add.{key_is}

module _ (account key : String) (row : KeyRow) where
  abbrev Holds : Tables → Type 0
  Holds t = first (key_is account key) t.idempotency_keys ≡ some row

-- The device as it is after the history, under the id and the name that the creation answered.
pub record Same (device : Device) (d : DeviceRow) (t : Tables) : Type 0 where
  pub stored : first (λ r. r.id == device.id) t.devices ≡ some d
  pub id : d.id ≡ device.id
  pub name : d.name ≡ device.name
