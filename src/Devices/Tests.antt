-- ===== src/Devices/Tests.antt =====
-- Concrete runs of the device rules.
use mcp_ui.Common.{◌≡◌, ◌≢◌, refl, String, Bool, true, none, some, [], ◌∷◌, arith, ◌==◌, string_eq}
use mcp_ui.Common.Rows.{first, count, update}
use mcp_ui.Errors.{throw_code, device_version_conflict}
use mcp_ui.Exec.{ok, err}
use mcp_ui.Normalize.{display_device_name, normalize_device_name}
use mcp_ui.Devices.Types.{
  on, off, Identity, Channel, DeviceRow, Device, to_device, Tables, Env, rejected,
}
use mcp_ui.Devices.Add.{AddDeviceInput, add_device, add_tx, create}
use mcp_ui.Devices.Read.{owned_device}
use mcp_ui.Devices.Control.{control_device, control_tx, changed, answer}
use mcp_ui.Devices.Versions.{control_rule, control_device-control_rule, logged, event_of}
use mcp_ui.Devices.Invariant.{IsValid}
use mcp_ui.Devices.Run.{add, control, step, run, empty, run-IsValid, Lives, run-Grows}
use mcp_ui.Devices.Conflicts.{asks, second_writer_refused}

abbrev env : Env
env = record {
  unicode = record { nfkc = λ s. s; to_lower_case = λ s. s };
  sha256_hex = λ _. "print";
}

abbrev by_length : String → String → Bool
by_length a b = true

abbrev alice : Identity
alice = record {
  account_id = "alice";
  channel = Channel.native;
  request_id = none;
  client_id = none;
  grant_id = none;
  via = none;
  auth_method = none;
}

-- The name "  Lamp ", with an idempotency key.
abbrev new_lamp : AddDeviceInput
new_lamp = record {
  name = some (32 ∷ 32 ∷ 76 ∷ 97 ∷ 109 ∷ 112 ∷ 32 ∷ []);
  idempotency_key = some "k1";
}

abbrev new_fan : AddDeviceInput
new_fan = record { name = some (70 ∷ 97 ∷ 110 ∷ []); idempotency_key = none }

abbrev lamp_row : DeviceRow
lamp_row = record {
  id = "d1";
  owner_id = "alice";
  name = 76 ∷ 97 ∷ 109 ∷ 112 ∷ [];
  normalized_name = 76 ∷ 97 ∷ 109 ∷ 112 ∷ [];
  state = off;
  version = 1;
  created_at = 5;
  updated_at = 5;
}

abbrev one_lamp : Tables
one_lamp = run env by_length empty (add 5 "d1" alice new_lamp ∷ [])

one_lamp-IsValid : IsValid one_lamp
one_lamp-IsValid = run-IsValid env by_length (add 5 "d1" alice new_lamp ∷ [])

lamp_there : first (λ r. r.id == "d1") one_lamp.devices ≡ some lamp_row
unfolding run step add_device add_tx create display_device_name normalize_device_name first
    mcp_ui.Normalize.squeeze mcp_ui.Normalize.trim mcp_ui.Normalize.trim_start
    mcp_ui.Normalize.is_space count
lamp_there = refl

alice_bob : alice.account_id ≢ "bob"
alice_bob e = cc

run-IsValid_example :
    IsValid (
      run env by_length empty (add 5 "d1" alice new_lamp ∷ control 9 alice (asks "d1" "on" 1) ∷ []))
run-IsValid_example =
    run-IsValid env by_length (add 5 "d1" alice new_lamp ∷ control 9 alice (asks "d1" "on" 1) ∷ [])

run-Grows_example :
    Lives lamp_row (run env by_length one_lamp (control 9 alice (asks "d1" "on" 1) ∷ []))
run-Grows_example =
    run-Grows env by_length one_lamp (control 9 alice (asks "d1" "on" 1) ∷ []) lamp_row
      one_lamp-IsValid lamp_there

control_device-control_rule_example :
    control_device 9 alice (asks "d1" "on" 1) one_lamp
    ≡ control_rule 9 alice "d1" on 1 (first (owned_device "d1" "alice") one_lamp.devices) one_lamp
unfolding control_device mcp_ui.Devices.Control.state_named
control_device-control_rule_example =
    control_device-control_rule 9 alice "d1" "on" 1 one_lamp {state = on} one_lamp-IsValid.ids refl
      (omega arith)

abbrev lamp : Device
lamp = to_device lamp_row

switched : control_device 9 alice (asks "d1" "on" 1) one_lamp ≡ (
  ok (to_device (changed 9 on lamp_row)),
  (control_device 9 alice (asks "d1" "on" 1) one_lamp).1,
)
unfolding control_device control_tx answer run step add_device add_tx create display_device_name
    normalize_device_name to_device first mcp_ui.Normalize.squeeze mcp_ui.Normalize.trim
    mcp_ui.Normalize.trim_start mcp_ui.Normalize.is_space count update
    mcp_ui.Devices.Control.state_named
switched = refl

second_writer_refused_example :
    control_device 10 alice
      (asks "d1" "off" 1)
      (control_device 9 alice (asks "d1" "on" 1) one_lamp).1
    ≡ (
      err (throw_code device_version_conflict),
      logged alice
          (event_of "d1" on off rejected)
          (control_device 9 alice (asks "d1" "on" 1) one_lamp).1,
    )
unfolding mcp_ui.Devices.Control.state_named to_device
second_writer_refused_example =
    second_writer_refused 9 10 alice alice "d1" "on" "off" 1 {state = on} {other_state = off}
      one_lamp (control_device 9 alice (asks "d1" "on" 1) one_lamp).1
      (to_device (changed 9 on lamp_row)) one_lamp-IsValid refl refl refl (omega arith) switched
      refl
