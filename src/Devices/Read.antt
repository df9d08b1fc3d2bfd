-- ===== src/Devices/Read.antt =====
-- `listDevices` and `getDevice` of server/src/domain/devices.ts.
use mcp_ui.Common.{
  String, Bool, ◌&&◌, ◌||◌, none, some, List, [], ◌∷◌, map, ltb, ◌==◌, nat_eq, string_eq,
  if◌then◌else◌,
}
use mcp_ui.Common.Rows.{first, select}
use mcp_ui.Errors.{device_not_found, throw_code}
use mcp_ui.Exec.{Exec, pure, throw, gets, ◌>>=◌}
use mcp_ui.Devices.Types.{Identity, DeviceRow, Device, to_device, Tables}
use mcp_ui.Devices.Add.{owned_by}

-- `WHERE id = $1 AND owner_id = $2`
abbrev pub owned_device : String → String → DeviceRow → Bool
owned_device id account row = row.id == id && row.owner_id == account

-- ORDER BY created_at ASC, id ASC. How the database orders texts is its collation's affair.
abbrev pub before : (String → String → Bool) → DeviceRow → DeviceRow → Bool
before id_le a b =
    ltb a.created_at b.created_at || (a.created_at == b.created_at && id_le a.id b.id)

module _ (id_le : String → String → Bool) where
  unfoldable pub insert_row : DeviceRow → List DeviceRow → List DeviceRow
  insert_row row [] = row ∷ []
  insert_row row (x ∷ xs) = if before id_le row x then row ∷ x ∷ xs else x ∷ insert_row row xs

  unfoldable pub order_rows : List DeviceRow → List DeviceRow
  unfolding insert_row
  order_rows [] = []
  order_rows (x ∷ xs) = insert_row x (order_rows xs)

  unfoldable pub list_devices : Identity → Exec Tables (List Device)
  unfolding to_device order_rows
  list_devices identity = do
    rows ← gets (λ t. order_rows (select (owned_by identity.account_id) t.devices))
    pure (map to_device rows)

unfoldable pub get_device : Identity → String → Exec Tables Device
unfolding to_device
get_device identity device_id = do
  row ← gets (λ t. first (owned_device device_id identity.account_id) t.devices)
  elim row [ none ↦ throw (throw_code device_not_found) | some r ↦ pure (to_device r) ]
