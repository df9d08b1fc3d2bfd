-- ===== src/Devices/Add.antt =====
-- `addDevice` and `findByIdempotencyKey` of server/src/domain/devices.ts.
use mcp_ui.Common.{
  ℕ, String, Bool, false, ◌&&◌, not, Option, none, some, List, [], ◌∷◌, leb, ltb, ◌==◌, nat_eq,
  string_eq, list_eq, if◌then◌else◌,
}
use mcp_ui.Common.Rows.{first, count}
use mcp_ui.Errors.{
  validation_failed, device_limit_reached, device_name_conflict, throw_code, throw_field,
  unique_violation,
}
use mcp_ui.Exec.{Exec, pure, throw, gets, modify, transaction, ◌>>=◌, ◌>>◌}
use mcp_ui.Normalize.{Text, display_device_name, normalize_device_name}
use mcp_ui.Devices.Types.{
  off, Identity, DeviceRow, Device, to_device, KeyRow, device_create, accepted, Tables,
  record_audit, Env,
}

abbrev pub max_devices_per_account : ℕ
max_devices_per_account = 100

abbrev pub device_name_max : ℕ
device_name_max = 64

abbrev pub length : Text → ℕ
length [] = 0
length (c ∷ s) = Prim.Native.Nat.suc (length s)

pub record AddDeviceInput : Type 0 where
  pub name : Option Text
  pub idempotency_key : Option String

abbrev pub name_or_empty : Option Text → Text
name_or_empty none = []
name_or_empty (some s) = s

-- `if (input.idempotencyKey)`: an empty key counts as none.
abbrev pub used_key : Option String → Option String
used_key none = none
used_key (some k) = if k == "" then none else some k

unfoldable pub fingerprint : Env → Text → String
fingerprint env normalized_name = env.sha256_hex normalized_name

abbrev pub key_is : String → String → KeyRow → Bool
key_is account key row = row.account_id == account && row.key == key

-- The JOIN of a key row with its device; a foreign key keeps the device there.
abbrev pub device_of : List DeviceRow → KeyRow → Option DeviceRow
device_of devices row = first (λ d. d.id == row.device_id) devices

abbrev pub fingerprint_differs : Option String → String → Bool
fingerprint_differs none expected = false
fingerprint_differs (some f) expected = not (f == expected)

abbrev replay_of : String → KeyRow → Option DeviceRow → Exec Tables (Option Device)
replay_of expected row none = pure none
replay_of expected row (some d) =
    if fingerprint_differs row.request_fingerprint expected
    then throw (
        throw_field validation_failed
          "This Idempotency-Key was already used for a different device." "name")
    else pure (some (to_device d))

abbrev joined : String → List DeviceRow → Option KeyRow → Exec Tables (Option Device)
joined expected devices none = pure none
joined expected devices (some row) = replay_of expected row (device_of devices row)

unfoldable pub find_by_idempotency_key : Identity → String → String → Exec Tables (Option Device)
unfolding to_device
find_by_idempotency_key identity key expected = do
  devices ← gets (λ t. t.devices)
  row ← gets (λ t. first (key_is identity.account_id key) t.idempotency_keys)
  joined expected devices row

-- The lookup under `if (input.idempotencyKey)`.
unfoldable pub replay : Identity → Option String → String → Exec Tables (Option Device)
unfolding find_by_idempotency_key
replay identity none expected = pure none
replay identity (some key) expected = find_by_idempotency_key identity key expected

abbrev pub owned_by : String → DeviceRow → Bool
owned_by account row = row.owner_id == account

abbrev pub same_name : String → Text → DeviceRow → Bool
same_name account normalized row = row.owner_id == account && row.normalized_name == normalized

-- INSERT … ON CONFLICT ON CONSTRAINT devices_owner_name_key DO NOTHING RETURNING: a taken name
-- gives no row; a taken id is a violation of the primary key, which nothing handles.
unfoldable pub insert_device : DeviceRow → Exec Tables (Option DeviceRow)
insert_device row = do
  taken ← gets (λ t. first (same_name row.owner_id row.normalized_name) t.devices)
  clash ← gets (λ t. first (λ d. d.id == row.id) t.devices)
  elim taken [
    | some _ ↦ pure none
    | none ↦ elim clash [
      | some _ ↦ throw unique_violation
      | none ↦ do modify (λ t. record t { devices = row ∷ t.devices }); pure (some row)
    ]
  ]

-- INSERT INTO idempotency_keys … ON CONFLICT DO NOTHING, under `if (input.idempotencyKey)`.
unfoldable pub keep_key : Identity → Option String → String → String → Exec Tables (Unit {0})
keep_key identity none device_id print = pure tt
keep_key identity (some key) device_id print = do
  old ← gets (λ t. first (key_is identity.account_id key) t.idempotency_keys)
  elim old [
    | some _ ↦ pure tt
    | none ↦
        let row : KeyRow = record {
          account_id = identity.account_id;
          key = key;
          device_id = device_id;
          request_fingerprint = some print;
        } in
        modify (λ t. record t { idempotency_keys = row ∷ t.idempotency_keys })
  ]

-- What follows the INSERT of the device.
unfoldable pub finish_add :
    Identity → Option String → String → Option DeviceRow → Exec Tables Device
unfolding replay keep_key record_audit to_device
finish_add identity key print none = do
  again ← replay identity key print
  elim again [ some device ↦ pure device | none ↦ throw (throw_code device_name_conflict) ]
finish_add identity key print (some row) = do
  keep_key identity key row.id print
  record_audit identity (record {
    action = device_create;
    device_id = some row.id;
    old_state = none;
    new_state = some row.state;
    outcome = accepted;
  })
  pure (to_device row)

-- From the count to the end of the transaction. The row lock on the account has no effect on a
-- sequence of whole transactions.
unfoldable pub create :
    Env → ℕ → String → Identity → Text → Text → Option String → Exec Tables Device
unfolding insert_device finish_add fingerprint
create env now new_id identity name normalized key = do
  counted ← gets (λ t. count (owned_by identity.account_id) t.devices)
  if leb max_devices_per_account counted then throw (throw_code device_limit_reached) else do
    row ← insert_device (record {
      id = new_id;
      owner_id = identity.account_id;
      name = name;
      normalized_name = normalized;
      state = off;
      version = 1;
      created_at = now;
      updated_at = now;
    })
    finish_add identity key (fingerprint env normalized) row

-- The body of the transaction.
unfoldable pub add_tx :
    Env → ℕ → String → Identity → Text → Text → Option String → Exec Tables Device
unfolding replay create fingerprint
add_tx env now new_id identity name normalized key = do
  earlier ← replay identity key (fingerprint env normalized)
  elim earlier [
    | some device ↦ pure device
    | none ↦ create env now new_id identity name normalized key
  ]

unfoldable pub add_device : Env → ℕ → String → Identity → AddDeviceInput → Exec Tables Device
add_device env now new_id identity input =
    let name = display_device_name (name_or_empty input.name) in
    if length name == 0
    then throw (throw_field validation_failed "Device name is required." "name")
    else if ltb device_name_max (length name)
    then throw (throw_field validation_failed "Device name must be 64 characters or fewer." "name")
    else transaction (
        add_tx env now new_id identity name (normalize_device_name env.unicode name)
          (used_key input.idempotency_key))
