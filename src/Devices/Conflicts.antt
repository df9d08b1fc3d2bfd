-- ===== src/Devices/Conflicts.antt =====
-- Two callers that hold the same version of a device.
use mcp_ui.Common.{
  ℕ, suc, ◌≤◌, ◌≡◌, refl, String, false, Option, none, some, arith, Bool-cases, inl, inr, ◌==◌,
  nat_eq, string_eq, sym, ◌∙◌, ap, subst,
}
use mcp_ui.Common.Rows.{first, update}
use mcp_ui.Common.Rows.Laws.{first-some, first-update}
use mcp_ui.Errors.{throw_code, device_version_conflict}
use mcp_ui.Exec.{ok, err}
use mcp_ui.Devices.Types.{
  DeviceState, state_beq, Identity, DeviceRow, Device, Tables, to_device, accepted, rejected,
}
use mcp_ui.Devices.Read.{owned_device}
use mcp_ui.Devices.Control.{ControlDeviceInput, whole, state_named, changed, control_device}
use mcp_ui.Devices.Versions.{logged, event_of, control_rule, control_device-control_rule}
use mcp_ui.Devices.Invariant.{IsValid, control_device-IsValid}

abbrev pub asks : String → String → ℕ → ControlDeviceInput
asks id text version = record { device_id = id; state = text; expected_version = whole version }

-- The row behind an answer that moved the version on, and the row that is there afterwards.
rule_moved :
    (now : ℕ) (identity : Identity) (id : String) (state : DeviceState) (version : ℕ)
    (found : Option DeviceRow) (t t' : Tables) (device : Device)
    → first (owned_device id identity.account_id) t.devices ≡ found
    → control_rule now identity id state version found t ≡ (ok device, t')
    → device.version ≡ suc version
    → (row : DeviceRow) × (row.version ≡ suc version)
      × (row.state ≡ state)
      × (first (owned_device id identity.account_id) t'.devices ≡ some row)
rule_moved now identity id state version none t t' device e h moved = absurd (cc)
rule_moved now identity id state version (some row) t t' device e h moved =
    elim (Bool-cases (row.version == version)) [
      | inl same ↦ elim (Bool-cases (state_beq row.state state)) [
        | inl still ↦
            let plain : (row.version ≡ version) × (to_device row ≡ device) =
              (ground arith, let k = rw (same, still) at h in ground arith) in
            absurd (unfold to_device in ground arith)
        | inr flip ↦
            let k = rw (same, flip) at h in
            let after : logged identity (event_of row.id row.state state accepted)
                  (record t { devices = update (λ r. r.id == id) (changed now state) t.devices })
                ≡ t' =
              ground arith in
            let (holds, _) = first-some (owned_device id identity.account_id) t.devices e in
            (
              changed now state row,
              ground arith,
              refl,
              rw (← after) (
                  rw
                    (
                      first-update (λ r. r.id == id) (owned_device id identity.account_id)
                          (changed now state) t.devices (λ x _. refl),
                      e,
                    )
                    (ground (arith, holds))),
            )
      ]
      | inr other ↦ let k = rw other at h in absurd (ground arith)
    ]

-- Two callers of one account hold the same version of a device. If the first call moves the
-- version on, the second is refused as a version conflict, whichever state it asks for, and the
-- only trace of it is one audit record. The tables are valid before.
pub second_writer_refused :
    (now later : ℕ) (first_caller second_caller : Identity) (id text other_text : String)
    (version : ℕ) {state other_state : DeviceState} (t t' : Tables) (device : Device)
    → IsValid t
    → first_caller.account_id ≡ second_caller.account_id
    → state_named text ≡ some state
    → state_named other_text ≡ some other_state
    → 1 ≤ version
    → control_device now first_caller (asks id text version) t ≡ (ok device, t')
    → device.version ≡ suc version
    → control_device later second_caller (asks id other_text version) t' ≡ (
      err (throw_code device_version_conflict),
      logged second_caller (event_of id state other_state rejected) t',
    )
second_writer_refused now later first_caller second_caller id text other_text version {state}
      {other_state} t t' device v same named other_named large h moved =
    let (row, grown, is_state, there) =
      rule_moved now first_caller id state version
        (first (owned_device id first_caller.account_id) t.devices) t t' device refl
        (sym (control_device-control_rule now first_caller id text version t v.ids named large) ∙ h)
        moved in
    let v' : IsValid t' =
      subst IsValid (ap (λ r. r.1) h)
        (control_device-IsValid now first_caller (asks id text version) t v) in
    let seen : first (owned_device id second_caller.account_id) t'.devices ≡ some row =
      subst (λ a. first (owned_device id a) t'.devices ≡ some row) same there in
    let differ : (row.version == version) ≡ false = ground arith in
    control_device-control_rule later second_caller id other_text version t' v'.ids other_named
      large
    ∙ rw seen (
        rw differ (
          ap
            (λ s. (
              err (throw_code device_version_conflict),
              logged second_caller (event_of id s other_state rejected) t',
            ))
            is_state))
