-- ===== src/Devices/Effects.antt =====
-- What a call of `add_device` or `control_device` can do to the tables.
use mcp_ui.Common.{
  ℕ, ◌≡◌, refl, String, false, Option, none, some, arith, Bool-cases, Option-cases, inl, inr, leb,
  ltb, ◌==◌, nat_eq, string_eq, if◌then◌else◌, List, ◌∷◌,
}
use mcp_ui.Common.Rows.{first, count, update}
use mcp_ui.Common.Rows.Keys.{Distinct}
use mcp_ui.Errors.{throw_code, device_limit_reached, device_name_conflict, unique_violation}
use mcp_ui.Exec.{Result, ok, err, transaction}
use mcp_ui.Normalize.{Text, display_device_name, normalize_device_name}
use mcp_ui.Devices.Types.{
  DeviceState, state_beq, Identity, DeviceRow, Device, KeyRow, Tables, to_device, off, AuditEvent,
  device_create, accepted, rejected, Env,
}
use mcp_ui.Devices.Add.{
  AddDeviceInput, name_or_empty, used_key, key_is, owned_by, same_name, length,
  max_devices_per_account, device_name_max, replay, keep_key, create, add_tx, add_device,
  fingerprint,
}
use mcp_ui.Devices.Read.{owned_device}
use mcp_ui.Devices.Control.{
  SentVersion, whole, negative, fractional, ControlDeviceInput, state_named, changed,
  control_device,
}
use mcp_ui.Devices.Versions.{control_rule, control_device-control_rule, logged, event_of}

abbrev pub new_row : ℕ → String → String → Text → Text → DeviceRow
new_row now new_id account name normalized = record {
  id = new_id;
  owner_id = account;
  name = name;
  normalized_name = normalized;
  state = off;
  version = 1;
  created_at = now;
  updated_at = now;
}

abbrev pub kept : String → Option String → String → String → List KeyRow → List KeyRow
kept account none device_id print keys = keys
kept account (some key) device_id print keys = elim (first (key_is account key) keys) [
  | some _ ↦ keys
  | none ↦
      record {
        account_id = account;
        key = key;
        device_id = device_id;
        request_fingerprint = some print;
      }
      ∷ keys
]

abbrev pub created_event : String → AuditEvent
created_event id = record {
  action = device_create;
  device_id = some id;
  old_state = none;
  new_state = some off;
  outcome = accepted;
}

abbrev pub added : Identity → Option String → String → DeviceRow → Tables → Tables
added identity key print row t = logged identity (created_event row.id) (record t {
  devices = row ∷ t.devices;
  idempotency_keys = kept identity.account_id key row.id print t.idempotency_keys;
})

pub replay-reads :
    (identity : Identity) (key : Option String) (print : String) (t : Tables)
    → (replay identity key print t).1 ≡ t
unfolding replay
replay-reads identity none print t = refl
replay-reads identity (some key) print t =
    elim (Option-cases (first (key_is identity.account_id key) t.idempotency_keys)) [
      | inl e ↦ rw e
      | inr (row, e) ↦ rw e (ground arith)
    ]

keep_key_lem :
    (identity : Identity) (key : Option String) (id print : String) (s : Tables)
    → keep_key identity key id print s ≡ (
      ok tt,
      record s { idempotency_keys = kept identity.account_id key id print s.idempotency_keys },
    )
unfolding keep_key
keep_key_lem identity none id print s = refl
keep_key_lem identity (some key) id print s = ground arith

module _ (env : Env) (now : ℕ) (new_id : String) (identity : Identity) (name normalized : Text)
    (key : Option String) (t : Tables) where
  abbrev row : DeviceRow
  row = new_row now new_id identity.account_id name normalized

  -- The body of the transaction on a request that no key answers, as a decision.
  abbrev pub create_rule : Result Device × Tables
  create_rule =
      if leb max_devices_per_account (count (owned_by identity.account_id) t.devices)
      then (err (throw_code device_limit_reached), t)
      else elim (first (same_name identity.account_id normalized) t.devices) [
        | some _ ↦ (err (throw_code device_name_conflict), t)
        | none ↦ elim (first (λ d. d.id == new_id) t.devices) [
          | some _ ↦ (err unique_violation, t)
          | none ↦ (ok (to_device row), added identity key (fingerprint env normalized) row t)
        ]
      ]

  create-create_rule :
      replay identity key (fingerprint env normalized) t ≡ (ok none, t)
      → create env now new_id identity name normalized key t ≡ create_rule
  unfolding create
  create-create_rule e =
      elim (Bool-cases
        (leb max_devices_per_account (count (owned_by identity.account_id) t.devices))) [
          | inl full ↦ rw full
          | inr room ↦
              rw room
                (elim (Option-cases (first (same_name identity.account_id normalized) t.devices)) [
                  | inl free ↦
                      rw free (elim (Option-cases (first (λ d. d.id == new_id) t.devices)) [
                        | inl fresh ↦ rw fresh (rw (keep_key_lem identity key))
                        | inr (d, clash) ↦ rw clash
                      ])
                  | inr (d, taken) ↦ rw taken (rw e)
                ])
        ]

  -- What the transaction does, by what the lookup of the key finds.
  abbrev pub add_rule : Result (Option Device) → Result Device × Tables
  add_rule (err e) = (err e, t)
  add_rule (ok (some device)) = (ok device, t)
  add_rule (ok none) = create_rule

  create_rule_rolls_back : transaction (λ _. create_rule) t ≡ create_rule
  create_rule_rolls_back = ground arith

  pub add_tx-add_rule :
      (found : Result (Option Device))
      → (replay identity key (fingerprint env normalized) t).0 ≡ found
      → transaction (add_tx env now new_id identity name normalized key) t ≡ add_rule found
  unfolding add_tx
  add_tx-add_rule found e = by_cases found (replayed found e)
    where
      replayed :
          (r : Result (Option Device))
          → (replay identity key (fingerprint env normalized) t).0 ≡ r
          → replay identity key (fingerprint env normalized) t ≡ (r, t)
      replayed r p = λ i. (p i, replay-reads identity key (fingerprint env normalized) t i)

      by_cases :
          (r : Result (Option Device))
          → replay identity key (fingerprint env normalized) t ≡ (r, t)
          → transaction (add_tx env now new_id identity name normalized key) t ≡ add_rule r
      by_cases (err f) p = rw p
      by_cases (ok (some device)) p = rw p
      by_cases (ok none) p = rw p (rw (create-create_rule p) create_rule_rolls_back)

-- A property of the tables holds after `add_device` if it held before and the creation of a
-- device keeps it; the creation has room, a free name and a fresh id.
pub add_device_keeps {κ} :
    (P : Tables → Type κ) (env : Env) (now : ℕ) (new_id : String) (identity : Identity)
    (input : AddDeviceInput) (t : Tables)
    → P t
    → ((name normalized : Text) (key : Option String) (print : String)
        → leb max_devices_per_account (count (owned_by identity.account_id) t.devices) ≡ false
        → first (same_name identity.account_id normalized) t.devices ≡ none
        → first (λ d. d.id == new_id) t.devices ≡ none
        → P (added identity key print (new_row now new_id identity.account_id name normalized) t))
    → P (add_device env now new_id identity input t).1
unfolding add_device
add_device_keeps P env now new_id identity input t h step =
    let name = display_device_name (name_or_empty input.name) in
    elim (Bool-cases (length name == 0)) [
      | inl empty ↦ rw empty h
      | inr some_name ↦ rw some_name (elim (Bool-cases (ltb device_name_max (length name))) [
        | inl long ↦ rw long h
        | inr fits ↦
            rw fits
              (tx name (normalize_device_name env.unicode name) (used_key input.idempotency_key))
      ])
    ]
  where
    creation :
        (name normalized : Text) (key : Option String)
        → P (create_rule env now new_id identity name normalized key t).1
    creation name normalized key =
        elim (Bool-cases
          (leb max_devices_per_account (count (owned_by identity.account_id) t.devices))) [
            | inl full ↦ rw full h
            | inr room ↦
                rw room
                  (elim (Option-cases
                    (first (same_name identity.account_id normalized) t.devices)) [
                      | inl free ↦
                          rw free (elim (Option-cases (first (λ d. d.id == new_id) t.devices)) [
                            | inl fresh ↦ rw fresh (
                                step name normalized key (fingerprint env normalized) room free
                                  fresh)
                            | inr (d, clash) ↦ rw clash h
                          ])
                      | inr (d, taken) ↦ rw taken h
                    ])
          ]

    by_rule :
        (name normalized : Text) (key : Option String) (found : Result (Option Device))
        → P (add_rule env now new_id identity name normalized key t found).1
    by_rule name normalized key (err e) = h
    by_rule name normalized key (ok (some device)) = h
    by_rule name normalized key (ok none) = creation name normalized key

    tx :
        (name normalized : Text) (key : Option String)
        → P (transaction (add_tx env now new_id identity name normalized key) t).1
    tx name normalized key =
        let found = (replay identity key (fingerprint env normalized) t).0 in
        rw (add_tx-add_rule env now new_id identity name normalized key t found refl)
          (by_rule name normalized key found)

module _ {κ} (P : Tables → Type κ) (now : ℕ) (identity : Identity) (t : Tables) (h : P t)
    (refused : (id : String) (row : DeviceRow) (state : DeviceState)
      → P (logged identity (event_of id row.state state rejected) t))
    (flipped : (id : String) (row : DeviceRow) (state : DeviceState)
      → first (owned_device id identity.account_id) t.devices ≡ some row
      → state_beq row.state state ≡ false
      → P (
          logged identity
            (event_of row.id row.state state accepted)
            (record t { devices = update (λ r. r.id == id) (changed now state) t.devices }))) where
  control_rule_keeps :
      (id : String) (state : DeviceState) (version : ℕ) (found : Option DeviceRow)
      → first (owned_device id identity.account_id) t.devices ≡ found
      → P (control_rule now identity id state version found t).1
  control_rule_keeps id state version none e = h
  control_rule_keeps id state version (some row) e = elim (Bool-cases (row.version == version)) [
    | inl same ↦ elim (Bool-cases (state_beq row.state state)) [
      | inl still ↦ rw (same, still) h
      | inr flip ↦ rw (same, flip) (flipped id row state e flip)
    ]
    | inr other ↦ rw other (refused id row state)
  ]

  by_version :
      (id text : String) (v : SentVersion) (state : DeviceState)
      → Distinct (λ r. r.id) t.devices
      → state_named text ≡ some state
      → P
          (control_device now identity
            (record { device_id = id; state = text; expected_version = v })
            t).1
  by_version id text (whole v) state ids named = elim (Bool-cases (leb 1 v)) [
    | inl large ↦
        rw (control_device-control_rule now identity id text v t ids named (ground arith))
          (control_rule_keeps id state v _ refl)
    | inr small ↦ unfold control_device in rw (named, control_device) (rw small h)
  ]
  by_version id text negative state ids named =
      unfold control_device in rw (named, control_device) h
  by_version id text fractional state ids named =
      unfold control_device in rw (named, control_device) h

  -- The same for `control_device`: a rejection is logged, a change is made and logged, and
  -- nothing else happens.
  pub control_device_keeps :
      (input : ControlDeviceInput)
      → Distinct (λ r. r.id) t.devices
      → P (control_device now identity input t).1
  control_device_keeps input ids = elim (Option-cases (state_named input.state)) [
    | inl bad ↦ unfold control_device in rw (bad, control_device) h
    | inr (state, named) ↦
        by_version input.device_id input.state input.expected_version state ids named
  ]
