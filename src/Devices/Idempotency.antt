-- ===== src/Devices/Idempotency.antt =====
-- Idempotency keys of `add_device`.
use mcp_ui.Common.{
  ℕ, ◌≤◌, ◌≡◌, refl, String, false, Option, none, some, arith, Bool-cases, Option-cases, inl, inr,
  leb, ltb, ◌==◌, nat_eq, string_eq, text_eq, beq_self, if◌then◌else◌, ◌∷◌, sym, ◌∙◌, ap,
}
use mcp_ui.Common.Rows.{first, count}
use mcp_ui.Common.Rows.Laws.{first-some, All-at}
use mcp_ui.Errors.{validation_failed, throw_field}
use mcp_ui.Exec.{Result, ok, err, transaction}
use mcp_ui.Normalize.{Text, display_device_name, normalize_device_name}
use mcp_ui.Devices.Types.{Identity, DeviceRow, Device, KeyRow, Tables, to_device, Env}
use mcp_ui.Devices.Add.{
  AddDeviceInput, name_or_empty, used_key, key_is, device_of, owned_by, same_name, length,
  max_devices_per_account, device_name_max, replay, fingerprint, add_tx, add_device,
}
use mcp_ui.Devices.Effects.{new_row, added, kept, add_rule, add_tx-add_rule}
use mcp_ui.Devices.Invariant.{IsValid, IsKept}

-- Refusal of a key that was used for another request.
abbrev pub reused : Result (Option Device)
reused = err (
    throw_field validation_failed "This Idempotency-Key was already used for a different device."
      "name")

-- What a lookup of the key answers once it stands for a device: that device to a request with
-- the same fingerprint, a refusal to any other.
abbrev pub Stands : Identity → String → String → Device → Tables → Type 0
Stands identity key print device t =
    (asked : String)
    → (replay identity (some key) asked t).0 ≡ (if print == asked then ok (some device) else reused)

pub replay_no_row :
    (identity : Identity) (key asked : String) (t : Tables)
    → first (key_is identity.account_id key) t.idempotency_keys ≡ none
    → (replay identity (some key) asked t).0 ≡ ok none
unfolding replay
replay_no_row identity key asked t e = rw e

pub replay_row :
    (identity : Identity) (key asked : String) (t : Tables) (row : KeyRow) (d : DeviceRow)
    (f : String)
    → first (key_is identity.account_id key) t.idempotency_keys ≡ some row
    → device_of t.devices row ≡ some d
    → row.request_fingerprint ≡ some f
    → (replay identity (some key) asked t).0
      ≡ (if f == asked then ok (some (to_device d)) else reused)
unfolding replay
replay_row identity key asked t row d f e at printed = ground arith

pub kept_row :
    (identity : Identity) (key : String) (t : Tables)
    → IsValid t
    → (row : KeyRow) → first (key_is identity.account_id key) t.idempotency_keys ≡ some row
    → (d : DeviceRow) × (f : String) × (device_of t.devices row ≡ some d)
      × (row.request_fingerprint ≡ some f)
kept_row identity key t v row e =
    let (_, m) = first-some (key_is identity.account_id key) t.idempotency_keys e in
    let (there, printed) = All-at (IsKept t.devices) t.idempotency_keys v.keyed m in
    elim (Option-cases (device_of t.devices row)) [
      | inl gone ↦ absurd (there gone)
      | inr (d, at) ↦ elim (Option-cases row.request_fingerprint) [
        | inl blank ↦ absurd (printed blank)
        | inr (f, is_f) ↦ (d, f, at, is_f)
      ]
    ]

module _ (env : Env) (now : ℕ) (new_id : String) (identity : Identity) (name normalized : Text)
    (key : String) (t : Tables) (v : IsValid t) where
  abbrev print : String
  print = fingerprint env normalized

  replay-Stands :
      (device : Device)
      → (replay identity (some key) print t).0 ≡ ok (some device)
      → Stands identity key print device t
  replay-Stands device h asked =
      elim (Option-cases (first (key_is identity.account_id key) t.idempotency_keys)) [
        | inl e ↦ absurd (cc (replay_no_row identity key print t e))
        | inr (row, e) ↦
            let (d, f, at, printed) = kept_row identity key t v row e in
            rw (replay_row identity key asked t row d f e at printed) (
              ground (
                arith,
                replay_row identity key print t row d f e at printed,
                text_eq f print,
                text_eq f asked,
                text_eq print asked,
              ))
      ]

  abbrev device_row : DeviceRow
  device_row = new_row now new_id identity.account_id name normalized

  abbrev new_key : KeyRow
  new_key = record {
    account_id = identity.account_id;
    key = key;
    device_id = new_id;
    request_fingerprint = some print;
  }

  new_key-first :
      first (key_is identity.account_id key) t.idempotency_keys ≡ none
      → first
          (key_is identity.account_id key)
          (kept identity.account_id (some key) new_id print t.idempotency_keys)
        ≡ some new_key
  new_key-first e = rw (e, kept) (unfold first in rw (beq_self identity.account_id, beq_self key))

  new_key_device : device_of (device_row ∷ t.devices) new_key ≡ some device_row
  unfolding first
  new_key_device = rw (beq_self new_id)

  created_Stands :
      (replay identity (some key) print t).0 ≡ ok none
      → Stands identity key print
          (to_device (new_row now new_id identity.account_id name normalized))
          (added identity
            (some key)
            print
            (new_row now new_id identity.account_id name normalized)
            t)
  created_Stands h asked =
      elim (Option-cases (first (key_is identity.account_id key) t.idempotency_keys)) [
        | inl e ↦
            replay_row identity key asked (added identity (some key) print device_row t) new_key
              device_row print (new_key-first e) new_key_device refl
        | inr (row, e) ↦
            let (d, f, at, printed) = kept_row identity key t v row e in
            absurd (ground (arith, replay_row identity key print t row d f e at printed))
      ]

  rule_Stands :
      (found : Result (Option Device)) (device : Device) (t' : Tables)
      → (replay identity (some key) print t).0 ≡ found
      → add_rule env now new_id identity name normalized (some key) t found ≡ (ok device, t')
      → Stands identity key print device t'
  rule_Stands (err e) device t' at h = absurd (cc)
  rule_Stands (ok (some earlier)) device t' at h =
      rw (← ap (λ r. r.1) h) (replay-Stands device (ground arith))
  rule_Stands (ok none) device t' at h =
      elim (Bool-cases
        (leb max_devices_per_account (count (owned_by identity.account_id) t.devices))) [
          | inl full ↦ absurd (ground arith)
          | inr room ↦
              elim (Option-cases (first (same_name identity.account_id normalized) t.devices)) [
                | inl free ↦ elim (Option-cases (first (λ d. d.id == new_id) t.devices)) [
                  | inl fresh ↦
                      let tables : added identity (some key) print device_row t ≡ t' =
                        ground arith in
                      let answer : to_device device_row ≡ device = ground arith in
                      rw (← tables, ← answer) (created_Stands at)
                  | inr (d, clash) ↦ absurd (ground arith)
                ]
                | inr (d, taken) ↦ absurd (ground arith)
              ]
        ]

abbrev pub tidy : AddDeviceInput → Text
tidy input = display_device_name (name_or_empty input.name)

-- What identifies the request that a key stands for.
abbrev pub print_of : Env → AddDeviceInput → String
print_of env input = fingerprint env (normalize_device_name env.unicode (tidy input))

-- The name is neither empty nor too long.
abbrev pub Fits : AddDeviceInput → Type 0
Fits input = (1 ≤ length (tidy input)) × (length (tidy input) ≤ device_name_max)

module _ (env : Env) (now : ℕ) (new_id : String) (identity : Identity) (input : AddDeviceInput)
    (key : String) (keyed : used_key input.idempotency_key ≡ some key) where
  add_device-tx :
      Fits input
      → (t : Tables)
      → add_device env now new_id identity input t
        ≡ transaction
            (add_tx env now new_id identity
              (tidy input)
              (normalize_device_name env.unicode (tidy input))
              (some key))
            t
  unfolding add_device
  add_device-tx fits t =
      let named : (length (tidy input) == 0) ≡ false = ground arith in
      let short : ltb device_name_max (length (tidy input)) ≡ false = ground arith in
      rw (named, short)
        (ap
          (λ k.
            transaction
              (add_tx env now new_id identity (tidy input)
                (normalize_device_name env.unicode (tidy input)) k)
              t)
          keyed)

  add_device-Fits :
      (t t' : Tables) (device : Device)
      → add_device env now new_id identity input t ≡ (ok device, t')
      → Fits input
  unfolding add_device
  add_device-Fits t t' device h = ground arith

  pub add_device-Stands :
      (t t' : Tables) (device : Device)
      → IsValid t
      → add_device env now new_id identity input t ≡ (ok device, t')
      → Stands identity key (print_of env input) device t'
  add_device-Stands t t' device v h =
      let found = (replay identity (some key) (print_of env input) t).0 in
      rule_Stands env now new_id identity (tidy input)
        (normalize_device_name env.unicode (tidy input)) key t v found device t' refl
        (sym (
            add_tx-add_rule env now new_id identity (tidy input)
              (normalize_device_name env.unicode (tidy input)) (some key) t found refl)
          ∙ sym (add_device-tx (add_device-Fits t t' device h) t)
          ∙ h)

  pub Stands-add_device :
      (t : Tables) (device : Device) (print : String)
      → Fits input
      → Stands identity key print device t
      → add_device env now new_id identity input t ≡ (
        if print == print_of env input
            then ok device
            else err (
                throw_field validation_failed
                  "This Idempotency-Key was already used for a different device." "name"),
        t,
      )
  Stands-add_device t device print fits st =
      add_device-tx fits t
      ∙ add_tx-add_rule env now new_id identity (tidy input)
          (normalize_device_name env.unicode (tidy input)) (some key) t _ (st (print_of env input))
      ∙ ground arith
