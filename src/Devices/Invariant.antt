-- ===== src/Devices/Invariant.antt =====
-- What holds of the device tables between two calls: the constraints of the schema, the cap, and
-- an audit log that accounts for every version and every state.
pub mod Added
use mcp_ui.Common.{
  ℕ, zero, suc, ◌+◌, ◌≤◌, ◌≡◌, ◌≢◌, refl, String, Bool, true, false, ◌&&◌, not, Option, none, some,
  arith, Bool-cases, Option-cases, inl, inr, leb, ltb, ◌==◌, nat_eq, string_eq, option_eq, list_eq,
  text_eq, units_eq, subst, beq_self, beq_ne, if◌then◌else◌, List, [], ◌∷◌, sym, ◌∙◌, Memᴰ, ap,
}
use mathlib.Core.Bool.{false≢true}
use mcp_ui.Common.Rows.{first, count, update, All}
use mcp_ui.Common.Rows.Laws.{first-some, first-none, first-update, count-update, All-of, All-at}
use mcp_ui.Common.Rows.Keys.{Distinct, Distinct-update}
use mcp_ui.Normalize.{Text}
use mcp_ui.Devices.Types.{
  DeviceState, state_beq, Identity, DeviceRow, Device, KeyRow, Tables, to_device, on, off, AuditRow,
  AuditEvent, AuditOutcome, AuditAction, device_create, device_control, accepted, rejected, Env,
}
use mcp_ui.Devices.Add.{AddDeviceInput, owned_by, max_devices_per_account, device_of}
use mcp_ui.Devices.Read.{owned_device}
use mcp_ui.Devices.Control.{ControlDeviceInput, changed, control_device}
use mcp_ui.Devices.Versions.{logged, event_of}
use mcp_ui.Devices.Effects.{control_device_keeps}

abbrev is_accepted : AuditOutcome → Bool
is_accepted accepted = true
is_accepted rejected = false

abbrev is_control : AuditAction → Bool
is_control device_control = true
is_control device_create = false

abbrev names_device : String → Option String → Bool
names_device id none = false
names_device id (some d) = d == id

-- An accepted operation on the device.
abbrev pub about : String → AuditRow → Bool
about id row = is_accepted row.event.outcome && names_device id row.event.device_id

-- An accepted change of the device's state.
abbrev pub is_change : String → AuditRow → Bool
is_change id row = is_control row.event.action && about id row

-- The newest accepted record of a device tells its state; the changes are as many as its versions
-- beyond the first; and a device that does not exist is not in the log.
abbrev pub Agrees : String → List AuditRow → Option DeviceRow → Type 0
Agrees id log none = (first (about id) log ≡ none) × (count (is_change id) log ≡ 0)
Agrees id log (some row) =
    ((a : AuditRow) × (first (about id) log ≡ some a) × (a.event.new_state ≡ some row.state))
    × (row.version ≡ suc (count (is_change id) log))

abbrev pub name_key : DeviceRow → String × Text
name_key row = (row.owner_id, row.normalized_name)

-- A kept key names a device that exists and the request that made it.
abbrev pub IsKept : List DeviceRow → KeyRow → Type 0
IsKept devices k = (device_of devices k ≢ none) × (k.request_fingerprint ≢ none)

pub record IsValid (t : Tables) : Type 0 where
  pub ids : Distinct (λ r. r.id) t.devices
  pub names : Distinct name_key t.devices
  pub capped : (account : String) → count (owned_by account) t.devices ≤ max_devices_per_account
  pub audited : (id : String) → Agrees id t.audit_events (first (λ r. r.id == id) t.devices)
  pub keyed : All (IsKept t.devices) t.idempotency_keys

-- A rejection is no accepted record, so nothing that the log tells of a device changes.
Agrees-rejected :
    (i id : String) (identity : Identity) (old new : DeviceState) (log : List AuditRow)
    (found : Option DeviceRow)
    → Agrees i log found
    → Agrees i (record { actor = identity; event = event_of id old new rejected } ∷ log) found
unfolding first count
Agrees-rejected i id identity old new log none h = h
Agrees-rejected i id identity old new log (some row) h = h

pub logged_rejection-IsValid :
    (identity : Identity) (id : String) (old new : DeviceState) (t : Tables)
    → IsValid t
    → IsValid (logged identity (event_of id old new rejected) t)
logged_rejection-IsValid identity id old new t v = record {
  ids = v.ids;
  names = v.names;
  capped = v.capped;
  audited = λ i. Agrees-rejected i id identity old new t.audit_events _ (v.audited i);
  keyed = v.keyed;
}

module _ (now : ℕ) (identity : Identity) (id : String) (row : DeviceRow) (state : DeviceState)
    (t : Tables) (v : IsValid t)
    (owned : first (owned_device id identity.account_id) t.devices ≡ some row) where
  flipped : Tables
  flipped =
      logged identity (event_of row.id row.state state accepted)
        (record t { devices = update (λ r. r.id == id) (changed now state) t.devices })

  row_id : row.id ≡ id
  row_id =
      let (holds, _) = first-some (owned_device id identity.account_id) t.devices owned in
      ground (arith, text_eq row.id id)

  -- The log after the change, by whether the record names the device that is asked for.
  Agrees-other :
      (i : String) (found : Option DeviceRow)
      → (row.id == i) ≡ false
      → Agrees i t.audit_events found
      → Agrees i flipped.audit_events found
  unfolding flipped first count
  Agrees-other i none ne h = rw ne h
  Agrees-other i (some x) ne h = rw ne h

  Agrees-same :
      (i : String) (x : DeviceRow)
      → (row.id == i) ≡ true
      → Agrees i t.audit_events (some x)
      → Agrees i flipped.audit_events (some (changed now state x))
  unfolding flipped first count
  Agrees-same i x eq h = rw eq ((_, refl, refl), omega (arith, h.1))

  row_found : first (λ r. r.id == row.id) t.devices ≢ none
  row_found e =
      let (_, m) = first-some (owned_device id identity.account_id) t.devices owned in
      false≢true (
        sym (
          All-at (λ r. (r.id == row.id) ≡ false) t.devices
            (first-none (λ r. r.id == row.id) t.devices e) m)
        ∙ beq_self row.id)

  Agrees-flipped :
      (i : String) (found : Option DeviceRow)
      → first (λ r. r.id == i) t.devices ≡ found
      → Agrees i t.audit_events found
      → Agrees i flipped.audit_events (elim found [
        | none ↦ none
        | some x ↦ some (if x.id == id then changed now state x else x)
      ])
  Agrees-flipped i none e h = elim (Bool-cases (row.id == i)) [
    | inl here ↦ absurd (row_found (rw ((text_eq row.id i).0 here) e))
    | inr away ↦ Agrees-other i none away h
  ]
  Agrees-flipped i (some x) e h =
      let at_i : x.id ≡ i = (text_eq x.id i).0 (first-some (λ r. r.id == i) t.devices e).0 in
      elim (Bool-cases (x.id == id)) [
        | inl here ↦
            rw here (Agrees-same i x (ground (arith, text_eq row.id i, text_eq x.id id, row_id)) h)
        | inr away ↦
            rw away (
              Agrees-other i (some x) (ground (arith, text_eq row.id i, text_eq x.id id, row_id)) h)
      ]

  still : (k : KeyRow) → device_of t.devices k ≢ none → device_of flipped.devices k ≢ none
  unfolding flipped
  still k h e = h (
      ground (
        arith,
        e,
        first-update (λ r. r.id == id) (λ d. d.id == k.device_id) (changed now state) t.devices
            (λ x _. refl),
      ))

  flipped-IsValid : IsValid flipped
  unfolding flipped
  flipped-IsValid = record {
    ids =
        Distinct-update (λ r. r.id) (λ r. r.id == id) (changed now state) t.devices (λ x. refl)
          v.ids;
    names =
        Distinct-update name_key (λ r. r.id == id) (changed now state) t.devices (λ x. refl)
          v.names;
    capped = λ account.
        rw
          (count-update (λ r. r.id == id) (owned_by account) (changed now state) t.devices
            (λ x _. refl))
          (v.capped account);
    audited = λ i.
        rw
          (first-update (λ r. r.id == id) (λ r. r.id == i) (changed now state) t.devices
            (λ x _. refl))
          (Agrees-flipped i _ refl (v.audited i));
    keyed = All-of (IsKept flipped.devices) t.idempotency_keys (λ k m. (
      still k (All-at (IsKept t.devices) t.idempotency_keys v.keyed m).0,
      (All-at (IsKept t.devices) t.idempotency_keys v.keyed m).1,
    ));
  }

-- Every call of `control_device` keeps the tables valid, whatever it answers.
pub control_device-IsValid :
    (now : ℕ) (identity : Identity) (input : ControlDeviceInput) (t : Tables)
    → IsValid t
    → IsValid (control_device now identity input t).1
unfolding flipped
control_device-IsValid now identity input t v =
    control_device_keeps IsValid now identity t v
      (λ id row state. logged_rejection-IsValid identity id row.state state t v)
      (λ id row state owned _. flipped-IsValid now identity id row state t v owned) input v.ids
