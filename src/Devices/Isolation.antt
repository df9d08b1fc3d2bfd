-- ===== src/Devices/Isolation.antt =====
-- One account's calls neither touch nor see the devices of another.
use mcp_ui.Common.{
  ℕ, ◌≤◌, ◌≡◌, ◌≢◌, refl, String, Bool, false, Option, none, some, arith, Bool-cases, Option-cases,
  inl, inr, leb, ◌==◌, nat_eq, string_eq, option_eq, list_eq, text_eq, beq_ne, List, sym, ◌∙◌, ap,
  map,
}
use mcp_ui.Common.Rows.{first, select, update}
use mcp_ui.Common.Rows.Laws.{first-some, first-select, select-update_ne}
use mcp_ui.Common.Rows.Keys.{Distinct, Distinct-eq}
use mcp_ui.Errors.{throw_code, device_not_found}
use mcp_ui.Exec.{Result, ok, err}
use mcp_ui.Devices.Types.{DeviceState, Identity, DeviceRow, Device, Tables, to_device, Env}
use mcp_ui.Devices.Add.{AddDeviceInput, owned_by, add_device}
use mcp_ui.Devices.Read.{owned_device, order_rows, list_devices, get_device}
use mcp_ui.Devices.Control.{
  ControlDeviceInput, SentVersion, whole, negative, fractional, state_named, changed,
  control_device,
}
use mcp_ui.Devices.Versions.{control_rule, control_device-control_rule}
use mcp_ui.Devices.Effects.{new_row, added, add_device_keeps, control_device_keeps}
use mcp_ui.Devices.Invariant.{IsValid}

-- The devices of an account, which is all that its calls can see of the table of devices.
abbrev pub own : String → Tables → List DeviceRow
own account t = select (owned_by account) t.devices

first-own :
    (id account : String) (t : Tables)
    → first (owned_device id account) t.devices ≡ first (λ r. r.id == id) (own account t)
first-own id account t = sym (first-select (λ r. r.id == id) (owned_by account) t.devices)

module _ (identity : Identity) (other : String) (differ : identity.account_id ≢ other)
    (t : Tables) where
  own-added :
      (key : Option String) (print : String) (row : DeviceRow)
      → row.owner_id ≡ identity.account_id
      → own other (added identity key print row t) ≡ own other t
  unfolding select
  own-added key print row mine = rw (beq_ne row.owner_id other (λ e. differ (sym mine ∙ e)))

  own-changed :
      (now : ℕ) (id : String) (row : DeviceRow) (state : DeviceState)
      → Distinct (λ r. r.id) t.devices
      → first (owned_device id identity.account_id) t.devices ≡ some row
      → select (owned_by other) (update (λ r. r.id == id) (changed now state) t.devices)
        ≡ own other t
  own-changed now id row state ids found =
      let (holds, m) = first-some (owned_device id identity.account_id) t.devices found in
      select-update_ne (λ r. r.id == id) (owned_by other) (changed now state) t.devices
        λ x n e.
          let same : x ≡ row =
            Distinct-eq (λ r. r.id) t.devices ids n m
              (ground (arith, text_eq x.id id, text_eq row.id id)) in
          let foreign : (row.owner_id == other) ≡ false =
            beq_ne row.owner_id other
              (λ p. differ (ground (arith, text_eq row.owner_id identity.account_id))) in
          (rw same foreign, rw same foreign)

-- A call of `add_device` leaves the devices of every other account as they were.
pub own-add_device :
    (env : Env) (now : ℕ) (new_id : String) (identity : Identity) (input : AddDeviceInput)
    (other : String) (t : Tables)
    → identity.account_id ≢ other
    → own other (add_device env now new_id identity input t).1 ≡ own other t
own-add_device env now new_id identity input other t differ =
    add_device_keeps (λ s. own other s ≡ own other t) env now new_id identity input t refl
      λ name normalized key print _ _ _.
        own-added identity other differ t key print
          (new_row now new_id identity.account_id name normalized) refl

-- A call of `control_device` on valid tables leaves the devices of every other account as they
-- were.
pub own-control_device :
    (now : ℕ) (identity : Identity) (input : ControlDeviceInput) (other : String) (t : Tables)
    → IsValid t
    → identity.account_id ≢ other
    → own other (control_device now identity input t).1 ≡ own other t
own-control_device now identity input other t v differ =
    control_device_keeps (λ s. own other s ≡ own other t) now identity t refl (λ id row state. refl)
      (λ id row state found _. own-changed identity other differ t now id row state v.ids found)
      input v.ids

abbrev found_answer : Option DeviceRow → Result Device
found_answer none = err (throw_code device_not_found)
found_answer (some row) = ok (to_device row)

get_device_lem :
    (identity : Identity) (id : String) (t : Tables)
    → (get_device identity id t).0
      ≡ found_answer (first (owned_device id identity.account_id) t.devices)
unfolding get_device
get_device_lem identity id t = ground arith

-- The answer of the rule for `control_device` is read off the row alone.
control_rule-answer :
    (now : ℕ) (identity : Identity) (id : String) (state : DeviceState) (version : ℕ)
    (found : Option DeviceRow) (t s : Tables)
    → (control_rule now identity id state version found t).0
      ≡ (control_rule now identity id state version found s).0
control_rule-answer now identity id state version none t s = refl
control_rule-answer now identity id state version (some row) t s = ground arith

module _ (now : ℕ) (identity : Identity) (t s : Tables) (ids_t : Distinct (λ r. r.id) t.devices)
    (ids_s : Distinct (λ r. r.id) s.devices)
    (same : own identity.account_id t ≡ own identity.account_id s) where
  same_row :
      (id : String)
      → first (owned_device id identity.account_id) t.devices
        ≡ first (owned_device id identity.account_id) s.devices
  same_row id =
      first-own id identity.account_id t
      ∙ ap (first (λ r. r.id == id)) same
      ∙ sym (first-own id identity.account_id s)

  same_get : (id : String) → (get_device identity id t).0 ≡ (get_device identity id s).0
  same_get id =
      get_device_lem identity id t
      ∙ ap found_answer (same_row id)
      ∙ sym (get_device_lem identity id s)

  same_list :
      (id_le : String → String → Bool)
      → (list_devices id_le identity t).0 ≡ (list_devices id_le identity s).0
  unfolding list_devices
  same_list id_le = ap (λ rows. ok (map to_device (order_rows id_le rows))) same

  same_control_valid :
      (id text : String) (version : ℕ) (state : DeviceState)
      → state_named text ≡ some state
      → 1 ≤ version
      → let input : ControlDeviceInput = record {
        device_id = id;
        state = text;
        expected_version = whole version;
      } in
        (control_device now identity input t).0 ≡ (control_device now identity input s).0
  same_control_valid id text version state named large =
      rw (control_device-control_rule now identity id text version t ids_t named large) (
        rw (control_device-control_rule now identity id text version s ids_s named large)
          (rw (same_row id) (control_rule-answer now identity id state version _ t s)))

  same_control_named :
      (id text : String) (v : SentVersion) (state : DeviceState)
      → state_named text ≡ some state
      → let input : ControlDeviceInput = record {
        device_id = id;
        state = text;
        expected_version = v;
      } in
        (control_device now identity input t).0 ≡ (control_device now identity input s).0
  same_control_named id text (whole n) state named = elim (Bool-cases (leb 1 n)) [
    | inl large ↦ same_control_valid id text n state named (ground arith)
    | inr small ↦ unfold control_device in rw (named, control_device) (rw small)
  ]
  same_control_named id text negative state named =
      unfold control_device in rw (named, control_device) refl
  same_control_named id text fractional state named =
      unfold control_device in rw (named, control_device) refl

  same_control :
      (id text : String) (v : SentVersion)
      → let input : ControlDeviceInput = record {
        device_id = id;
        state = text;
        expected_version = v;
      } in
        (control_device now identity input t).0 ≡ (control_device now identity input s).0
  same_control id text v = elim (Option-cases (state_named text)) [
    | inl bad ↦ unfold control_device in rw (bad, control_device) refl
    | inr (state, named) ↦ same_control_named id text v state named
  ]

-- What the calls answer an account is a function of its own devices: on two tables with distinct
-- device ids that hold the same devices of the account, and whatever devices of others, `get_device`,
-- `list_devices` and `control_device` answer the same. So a device of somebody else is answered as
-- one that does not exist.
pub answers_own :
    (id_le : String → String → Bool) (now : ℕ) (identity : Identity) (id : String)
    (input : ControlDeviceInput) (t s : Tables)
    → Distinct (λ r. r.id) t.devices
    → Distinct (λ r. r.id) s.devices
    → own identity.account_id t ≡ own identity.account_id s
    → ((get_device identity id t).0 ≡ (get_device identity id s).0)
      × ((list_devices id_le identity t).0 ≡ (list_devices id_le identity s).0)
      × ((control_device now identity input t).0 ≡ (control_device now identity input s).0)
answers_own id_le now identity id input t s ids_t ids_s same = (
  same_get now identity t s ids_t ids_s same id,
  same_list now identity t s ids_t ids_s same id_le,
  same_control now identity t s ids_t ids_s same input.device_id input.state input.expected_version,
)
