-- ===== src/Devices/Run.antt =====
-- Histories: any sequence of calls of the device rules, by any callers.
use mcp_ui.Common.{
  ℕ, ◌≤◌, ◌≡◌, refl, String, Bool, Option, none, some, arith, Bool-cases, inl, inr, ◌==◌, string_eq,
  text_eq, List, [], ◌∷◌, ◌∙◌, subst,
}
use mcp_ui.Common.Rows.{first, count, update}
use mcp_ui.Common.Rows.Laws.{first-update}
use mcp_ui.Devices.Types.{DeviceState, Identity, DeviceRow, Tables, accepted, Env}
use mcp_ui.Devices.Add.{AddDeviceInput, add_device}
use mcp_ui.Devices.Read.{list_devices, get_device}
use mcp_ui.Devices.Control.{ControlDeviceInput, changed, control_device}
use mcp_ui.Devices.Versions.{logged, event_of}
use mcp_ui.Devices.Effects.{new_row, added, add_device_keeps, control_device_keeps}
use mcp_ui.Devices.Invariant.{IsValid, control_device-IsValid}
use mcp_ui.Devices.Invariant.Added.{add_device-IsValid}

pub data Request : Type 0 where
  add : ℕ → String → Identity → AddDeviceInput → Request
  control : ℕ → Identity → ControlDeviceInput → Request
  get : Identity → String → Request
  list : Identity → Request

pub get-reads : (identity : Identity) (id : String) (t : Tables) → (get_device identity id t).1 ≡ t
unfolding get_device
get-reads identity id t = ground arith

pub list-reads :
    (id_le : String → String → Bool) (identity : Identity) (t : Tables)
    → (list_devices id_le identity t).1 ≡ t
unfolding list_devices
list-reads id_le identity t = refl

module _ (env : Env) (id_le : String → String → Bool) where
  unfoldable pub step : Tables → Request → Tables
  step t (add now new_id identity input) = (add_device env now new_id identity input t).1
  step t (control now identity input) = (control_device now identity input t).1
  step t (get identity id) = (get_device identity id t).1
  step t (list identity) = (list_devices id_le identity t).1

  unfoldable pub run : Tables → List Request → Tables
  run t [] = t
  run t (r ∷ rs) = run (step t r) rs

  pub step-IsValid : (t : Tables) (r : Request) → IsValid t → IsValid (step t r)
  unfolding step
  step-IsValid t (add now new_id identity input) v =
      add_device-IsValid env now new_id identity input t v
  step-IsValid t (control now identity input) v = control_device-IsValid now identity input t v
  step-IsValid t (get identity id) v = rw (get-reads identity id t) v
  step-IsValid t (list identity) v = rw (list-reads id_le identity t) v

  pub run_keeps : (t : Tables) (rs : List Request) → IsValid t → IsValid (run t rs)
  unfolding run
  run_keeps t [] v = v
  run_keeps t (r ∷ rs) v = run_keeps (step t r) rs (step-IsValid t r v)

abbrev pub empty : Tables
empty = record { devices = []; idempotency_keys = []; audit_events = [] }

pub empty-IsValid : IsValid empty
unfolding first count
empty-IsValid = record {
  ids = tt;
  names = tt;
  capped = λ account. omega arith;
  audited = λ id. (refl, refl);
  keyed = tt;
}

-- Whatever calls were made on an empty database, by whomever and with whatever arguments: no two
-- devices share an id, no two of an owner share a folded name, no account has more than 100, the
-- newest accepted audit record of each device tells its state and its version is one more than
-- its recorded changes, and every idempotency key names a device that exists.
pub run-IsValid :
    (env : Env) (id_le : String → String → Bool) (rs : List Request)
    → IsValid (run env id_le empty rs)
run-IsValid env id_le rs = run_keeps env id_le empty rs empty-IsValid

-- A device lives on under its name and owner; its version does not fall, and where it stands
-- still, so does the whole row.
pub record Grows (old new : DeviceRow) : Type 0 where
  pub id : new.id ≡ old.id
  pub owner : new.owner_id ≡ old.owner_id
  pub name : new.name ≡ old.name
  pub version : old.version ≤ new.version
  pub same : new.version ≡ old.version → new ≡ old

abbrev pub Lives : DeviceRow → Tables → Type 0
Lives old t = (new : DeviceRow) × (first (λ r. r.id == old.id) t.devices ≡ some new) × Grows old new

Grows-refl : (row : DeviceRow) → Grows row row
Grows-refl row = record {
  id = refl;
  owner = refl;
  name = refl;
  version = omega arith;
  same = λ _. refl;
}

Grows-trans : {a b c : DeviceRow} → Grows a b → Grows b c → Grows a c
Grows-trans g h = record {
  id = h.id ∙ g.id;
  owner = h.owner ∙ g.owner;
  name = h.name ∙ g.name;
  version = omega arith;
  same = λ e. h.same (omega arith) ∙ g.same (omega arith);
}

module _ (old : DeviceRow) (t : Tables) (alive : Lives old t) where
  Lives-added :
      (identity : Identity) (key : Option String) (print : String) (row : DeviceRow)
      → first (λ d. d.id == row.id) t.devices ≡ none
      → Lives old (added identity key print row t)
  Lives-added identity key print row fresh =
      let (new, found, grows) = alive in
      elim (Bool-cases (row.id == old.id)) [
        | inl clash ↦ absurd (
            cc (
              subst (λ i. first (λ d. d.id == i) t.devices ≡ none) ((text_eq row.id old.id).0 clash)
                fresh))
        | inr away ↦ (new, unfold first in rw away found, grows)
      ]

  Lives-flipped :
      (now : ℕ) (identity : Identity) (id : String) (row : DeviceRow) (state : DeviceState)
      → Lives old (
          logged identity
            (event_of row.id row.state state accepted)
            (record t { devices = update (λ r. r.id == id) (changed now state) t.devices }))
  Lives-flipped now identity id row state =
      let (new, found, grows) = alive in
      let moved =
        first-update (λ r. r.id == id) (λ r. r.id == old.id) (changed now state) t.devices
          (λ x _. refl) in
      elim (Bool-cases (new.id == id)) [
        | inl here ↦ (
          changed now state new,
          rw (moved, found) (rw here),
          record {
            id = grows.id;
            owner = grows.owner;
            name = grows.name;
            version = omega (arith, grows.version);
            same = λ e. absurd (omega (arith, e, grows.version));
          },
        )
        | inr away ↦ (new, rw (moved, found) (rw away), grows)
      ]

module _ (env : Env) (id_le : String → String → Bool) (old : DeviceRow) where
  step-Lives : (t : Tables) (r : Request) → IsValid t → Lives old t → Lives old (step env id_le t r)
  unfolding step
  step-Lives t (add now new_id identity input) v alive =
      add_device_keeps (Lives old) env now new_id identity input t alive
        λ name normalized key print _ _ fresh.
          Lives-added old t alive identity key print
            (new_row now new_id identity.account_id name normalized) fresh
  step-Lives t (control now identity input) v alive =
      control_device_keeps (Lives old) now identity t alive (λ id row state. alive)
        (λ id row state _ _. Lives-flipped old t alive now identity id row state) input v.ids
  step-Lives t (get identity id) v alive = rw (get-reads identity id t) alive
  step-Lives t (list identity) v alive = rw (list-reads id_le identity t) alive

  run-Lives :
      (t : Tables) (rs : List Request) → IsValid t → Lives old t → Lives old (run env id_le t rs)
  unfolding run
  run-Lives t [] v alive = alive
  run-Lives t (r ∷ rs) v alive =
      run-Lives (step env id_le t r) rs (step-IsValid env id_le t r v) (step-Lives t r v alive)

-- From valid tables, whatever calls follow: a device that is there stays there under its id, with
-- its owner and its name; its version never falls, and if it is the same in the end then no field
-- of the device has changed, so a version that a client holds stands for one state of the device.
pub run-Grows :
    (env : Env) (id_le : String → String → Bool) (t : Tables) (rs : List Request) (row : DeviceRow)
    → IsValid t
    → first (λ r. r.id == row.id) t.devices ≡ some row
    → Lives row (run env id_le t rs)
run-Grows env id_le t rs row v found = run-Lives env id_le row t rs v (row, found, Grows-refl row)
