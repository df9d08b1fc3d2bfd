-- ===== src/Devices/Versions.antt =====
-- Optimistic concurrency of `control_device`: the conditional UPDATE followed by a read decides as
-- if the row had been read first.
use mcp_ui.Common.{
  ℕ, ◌≤◌, ◌≡◌, String, Bool, true, false, ◌&&◌, not, Option, none, some, arith, Bool-cases,
  Option-cases, inl, inr, ◌==◌, nat_eq, string_eq, text_eq, if◌then◌else◌, ◌∷◌, sym, ◌∙◌, Memᴰ,
}
use mathlib.Core.Bool.{false≢true}
use mcp_ui.Common.Rows.{first, update}
use mcp_ui.Common.Rows.Laws.{first-some, first-none, All-at}
use mcp_ui.Common.Rows.Keys.{Distinct, Distinct-eq, update_congr, first_at}
use mcp_ui.Errors.{throw_code, device_not_found, device_version_conflict}
use mcp_ui.Exec.{Result, ok, err, Exec, ◌>>=◌, transaction}
use mcp_ui.Devices.Types.{
  DeviceState, state_beq, Identity, DeviceRow, Device, Tables, to_device, on, off, AuditEvent,
  device_control, accepted, rejected,
}
use mcp_ui.Devices.Read.{owned_device}
use mcp_ui.Devices.Control.{
  whole, state_named, positive_version, may_change, changed, opposite, control_tx, control_device,
  answer,
}

abbrev pub event_of :
    String → DeviceState → DeviceState → mcp_ui.Devices.Types.AuditOutcome → AuditEvent
event_of id old new outcome = record {
  action = device_control;
  device_id = some id;
  old_state = some old;
  new_state = some new;
  outcome = outcome;
}

abbrev pub logged : Identity → AuditEvent → Tables → Tables
logged identity event t = record t {
  audit_events = record { actor = identity; event = event } ∷ t.audit_events;
}

-- The rule as a decision on the row that is there.
abbrev pub control_rule :
    ℕ → Identity → String → DeviceState → ℕ → Option DeviceRow → Tables → Result Device × Tables
control_rule now identity id state version none t = (err (throw_code device_not_found), t)
control_rule now identity id state version (some row) t =
    if not (row.version == version)
    then (
      err (throw_code device_version_conflict),
      logged identity (event_of id row.state state rejected) t,
    )
    else if state_beq row.state state
    then (ok (to_device row), t)
    else (
      ok (to_device (changed now state row)),
      logged identity (event_of row.id row.state state accepted)
          (record t { devices = update (λ r. r.id == id) (changed now state) t.devices }),
    )

-- The transaction and what follows it, on a request whose fields are valid.
abbrev control_valid : ℕ → Identity → String → DeviceState → ℕ → Exec Tables Device
control_valid now identity id state version = do
  outcome ← transaction (control_tx now identity id state version)
  answer identity id state outcome

module _ (now : ℕ) (identity : Identity) (id : String) (state : DeviceState) (version : ℕ)
    (t : Tables) (ids : Distinct (λ r. r.id) t.devices) where
  abbrev test : DeviceRow → Bool
  test = may_change id identity.account_id version state

  only_row :
      {row : DeviceRow}
      → row.id ≡ id
      → Memᴰ row t.devices
      → (y : DeviceRow) → Memᴰ y t.devices
      → (y.id == id) ≡ true
      → y ≡ row
  only_row same m y n e =
      Distinct-eq (λ r. r.id) t.devices ids n m ((text_eq y.id id).0 e ∙ sym same)

  -- A row that the UPDATE matches is the caller's device.
  test_owned : (y : DeviceRow) → test y ≡ true → owned_device id identity.account_id y ≡ true
  test_owned y h = ground arith

  test-none :
      first (owned_device id identity.account_id) t.devices ≡ none → first test t.devices ≡ none
  test-none e = elim (Option-cases (first test t.devices)) [
    | inl none' ↦ none'
    | inr (y, found) ↦
        let (holds, m) = first-some test t.devices found in
        let missed =
          All-at (λ r. owned_device id identity.account_id r ≡ false) t.devices
            (first-none (owned_device id identity.account_id) t.devices e) m in
        absurd (false≢true (sym missed ∙ test_owned y holds))
  ]

  control_absent :
      first (owned_device id identity.account_id) t.devices ≡ none
      → control_valid now identity id state version t
        ≡ control_rule now identity id state version none t
  unfolding control_tx answer
  control_absent e = rw (test-none e, e)

  module _ (row : DeviceRow)
      (e : first (owned_device id identity.account_id) t.devices ≡ some row) where
    row_facts : (row.id ≡ id) × (row.owner_id ≡ identity.account_id) × Memᴰ row t.devices
    row_facts =
        let (holds, m) = first-some (owned_device id identity.account_id) t.devices e in
        (
          ground (arith, text_eq row.id id),
          ground (arith, text_eq row.owner_id identity.account_id),
          m,
        )

    test_row : first test t.devices ≡ (if test row then some row else none)
    test_row =
        let (same, _, m) = row_facts in
        first_at test t.devices m (λ y n h. only_row same m y n (ground arith))

    test_eq : test row ≡ ((row.version == version) && not (state_beq row.state state))
    test_eq =
        let (same, own, _) = row_facts in
        ground (arith, text_eq row.id id, text_eq row.owner_id identity.account_id)

    update_row :
        test row ≡ true
        → update test (changed now state) t.devices
          ≡ update (λ r. r.id == id) (changed now state) t.devices
    update_row h =
        let (same, _, m) = row_facts in
        update_congr test (λ r. r.id == id) (changed now state) t.devices
          λ y n. elim (Bool-cases (y.id == id)) [
            | inl here ↦ rw (only_row same m y n here, h) (ground arith)
            | inr away ↦ rw away
          ]

    opposite_state : state_beq row.state state ≡ false → opposite state ≡ row.state
    opposite_state h = ground arith

    control_present :
        control_valid now identity id state version t
        ≡ control_rule now identity id state version (some row) t
    unfolding control_tx answer
    control_present = elim (Bool-cases (row.version == version)) [
      | inl same ↦ elim (Bool-cases (state_beq row.state state)) [
        | inl still ↦ rw (test_row, test_eq, same, still, e) (rw same)
        | inr flip ↦
            rw (test_row, test_eq, same, flip)
              (rw (update_row (rw (test_eq, same, flip)), opposite_state flip))
      ]
      | inr other ↦ rw (test_row, test_eq, other, e) (rw other)
    ]

-- On tables whose device ids are distinct, and a request that names a state and a version of at
-- least 1, `control_device` answers and leaves the tables as if it had read the caller's device
-- with that id and then decided: no such device, `device_not_found` and no change; another
-- version, `device_version_conflict` and one audit record of the rejection; the same version and
-- the state asked for, the device as it is and no change; else the state is set, the version
-- grows by one, no other device changes, and one audit record tells the old and the new state.
pub control_device-control_rule :
    (now : ℕ) (identity : Identity) (id : String) (text : String) (version : ℕ) (t : Tables)
    {state : DeviceState}
    → Distinct (λ r. r.id) t.devices
    → state_named text ≡ some state
    → 1 ≤ version
    → control_device now identity
        (record { device_id = id; state = text; expected_version = whole version })
        t
      ≡ control_rule now identity id state version
          (first (owned_device id identity.account_id) t.devices)
          t
unfolding control_device
control_device-control_rule now identity id text version t {state} ids named large =
    let positive : positive_version (whole version) ≡ some version = ground arith in
    rw (named, positive, control_device)
      (elim (Option-cases (first (owned_device id identity.account_id) t.devices)) [
        | inl e ↦ rw e (control_absent now identity id state version t ids e)
        | inr (row, e) ↦ rw e (control_present now identity id state version t ids row e)
      ])
