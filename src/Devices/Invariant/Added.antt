-- ===== src/Devices/Invariant/Added.antt =====
-- `add_device` keeps the device tables valid.
use mcp_ui.Common.{
  ℕ, ◌≤◌, ◌≡◌, ◌≢◌, refl, String, true, false, Option, none, some, arith, Bool-cases, Option-cases,
  inl, inr, leb, ◌==◌, nat_eq, string_eq, option_eq, list_eq, text_eq, units_eq, subst, List, ◌∷◌,
  sym, ◌∙◌, ap,
}
use mathlib.Core.Bool.{false≢true}
use mcp_ui.Common.Rows.{first, count, All}
use mcp_ui.Common.Rows.Laws.{first-none, All-of, All-at}
use mcp_ui.Normalize.{Text}
use mcp_ui.Devices.Types.{Identity, DeviceRow, Tables, off, AuditRow, Env}
use mcp_ui.Devices.Add.{
  AddDeviceInput, owned_by, same_name, key_is, max_devices_per_account, add_device,
}
use mcp_ui.Devices.Effects.{new_row, added, kept, created_event, add_device_keeps}
use mcp_ui.Devices.Invariant.{IsValid, IsKept, Agrees, name_key}

same_name_of :
    (account : String) (normalized : Text) (r : DeviceRow)
    → r.owner_id ≡ account
    → r.normalized_name ≡ normalized
    → same_name account normalized r ≡ true
same_name_of account normalized r p q =
    rw ((text_eq r.owner_id account).1 p) ((units_eq r.normalized_name normalized).1 q)

Agrees-created_other :
    (i new_id : String) (identity : Identity) (log : List AuditRow) (found : Option DeviceRow)
    → (new_id == i) ≡ false
    → Agrees i log found
    → Agrees i (record { actor = identity; event = created_event new_id } ∷ log) found
unfolding first count
Agrees-created_other i new_id identity log none ne h = rw ne h
Agrees-created_other i new_id identity log (some x) ne h = rw ne h

Agrees-created_same :
    (i new_id : String) (identity : Identity) (log : List AuditRow) (row : DeviceRow)
    → row.state ≡ off
    → row.version ≡ 1
    → (new_id == i) ≡ true
    → Agrees i log none
    → Agrees i (record { actor = identity; event = created_event new_id } ∷ log) (some row)
unfolding first count
Agrees-created_same i new_id identity log row is_off first_version eq h =
    rw eq ((_, refl, ap some (sym is_off)), omega (arith, h.1))

module _ (identity : Identity) (key : Option String) (print : String) (now : ℕ) (new_id : String)
    (name normalized : Text) (t : Tables) (v : IsValid t)
    (room : leb max_devices_per_account (count (owned_by identity.account_id) t.devices) ≡ false)
    (free : first (same_name identity.account_id normalized) t.devices ≡ none)
    (fresh : first (λ d. d.id == new_id) t.devices ≡ none) where
  abbrev grown : Tables
  grown = added identity key print (new_row now new_id identity.account_id name normalized) t

  new_id_ne : All (λ r. r.id ≢ new_id) t.devices
  new_id_ne =
      All-of (λ r. r.id ≢ new_id) t.devices
        λ r m e. false≢true (
          sym (
            All-at (λ d. (d.id == new_id) ≡ false) t.devices
              (first-none (λ d. d.id == new_id) t.devices fresh) m)
          ∙ (text_eq r.id new_id).1 e)

  new_name_ne : All (λ r. name_key r ≢ (identity.account_id, normalized)) t.devices
  new_name_ne =
      All-of (λ r. name_key r ≢ (identity.account_id, normalized)) t.devices
        λ r m e.
          let missed =
            All-at (λ d. same_name identity.account_id normalized d ≡ false) t.devices
              (first-none (same_name identity.account_id normalized) t.devices free) m in
          false≢true (
            sym missed
            ∙ same_name_of identity.account_id normalized r (ap (λ p. p.0) e) (ap (λ p. p.1) e))

  grown_capped :
      (account : String) → count (owned_by account) grown.devices ≤ max_devices_per_account
  unfolding count
  grown_capped account = ground (arith, v.capped account, text_eq identity.account_id account)

  grown_audited : (i : String) → Agrees i grown.audit_events (first (λ r. r.id == i) grown.devices)
  unfolding first count
  grown_audited i = elim (Bool-cases (new_id == i)) [
    | inl here ↦
        let absent : Agrees i t.audit_events none =
          subst (λ f. Agrees i t.audit_events f) (rw ((text_eq new_id i).0 here) at fresh)
            (v.audited i) in
        rw here (
          Agrees-created_same i new_id identity t.audit_events
            (new_row now new_id identity.account_id name normalized) refl refl here absent)
    | inr away ↦
        rw away (Agrees-created_other i new_id identity t.audit_events _ away (v.audited i))
  ]

  old_keyed : All (IsKept grown.devices) t.idempotency_keys
  unfolding first
  old_keyed = All-of (IsKept grown.devices) t.idempotency_keys λ k m.
      let old = All-at (IsKept t.devices) t.idempotency_keys v.keyed m in
      ((λ e. old.0 (ground arith)), old.1)

  grown_keyed :
      (wanted : Option String)
      → All (IsKept grown.devices) (kept identity.account_id wanted new_id print t.idempotency_keys)
  unfolding first
  grown_keyed none = old_keyed
  grown_keyed (some k) =
      elim (Option-cases (first (key_is identity.account_id k) t.idempotency_keys)) [
        | inl e ↦
            rw (e, kept) (((λ f. ground (arith, text_eq new_id new_id)), (λ f. cc)), old_keyed)
        | inr (r, e) ↦ rw (e, kept) old_keyed
      ]

  added-IsValid : IsValid grown
  added-IsValid = record {
    ids = (new_id_ne, v.ids);
    names = (new_name_ne, v.names);
    capped = grown_capped;
    audited = grown_audited;
    keyed = grown_keyed key;
  }

-- Every call of `add_device` keeps the tables valid, whatever it answers.
pub add_device-IsValid :
    (env : Env) (now : ℕ) (new_id : String) (identity : Identity) (input : AddDeviceInput)
    (t : Tables)
    → IsValid t
    → IsValid (add_device env now new_id identity input t).1
add_device-IsValid env now new_id identity input t v =
    add_device_keeps IsValid env now new_id identity input t v
      λ name normalized key print room free fresh.
        added-IsValid identity key print now new_id name normalized t v room free fresh
