-- ===== src/Mcp/Tools/Kept.antt =====
-- server/src/mcp/tools.ts over the exchange client and the device service: what a call of a tool
-- leaves.
use mcp_ui.Common.{ℕ, ◌≡◌, String, Bool, Option, none, some, List, Bool-cases, inl, inr, string_eq}
use mcp_ui.Common.Dict.{Dict}
use mcp_ui.Normalize.{Text}
use mcp_ui.Exec.{Result, ok, err, Exec, after}
use mcp_ui.RateLimit.{Window, BucketResult, allowed, refused}
use mcp_ui.Devices.Types.{Identity, Tables}
use mcp_ui.Devices.Add.{AddDeviceInput, add_device}
use mcp_ui.Devices.Read.{list_devices, get_device}
use mcp_ui.Devices.Control.{control_device}
use mcp_ui.Devices.Invariant.{IsValid, control_device-IsValid}
use mcp_ui.Devices.Invariant.Added.{add_device-IsValid}
use mcp_ui.Devices.Run.{get-reads, list-reads}
use mcp_ui.Mcp.Policy.{Scope, devices_read, devices_control, devices_create}
use mcp_ui.Mcp.Gate.{Caller, anonymous, verified_caller}
use mcp_ui.Oauth.Verify.{Verified}
use mcp_ui.Internal.Workload.{Workload}
use mcp_ui.Internal.Service.{
  Payload, verify_internal_token, with_identity, service_list, service_get, service_add,
  service_control,
}
use mcp_ui.Internal.Cache.{
  CacheEntry, CacheCaller, is_refused, obtained, reused, token_for, on_store, attempt, recovered,
  reported, forgotten, run,
}
use mcp_ui.Mcp.Tools.{
  ToolAnswer, devices_listed, device_given, device_added, ToolState, ToolTimes, ToolCall, list_call,
  get_call, control_call, add_call, run_tool, budgeted, list_devices_tool, get_device_tool,
  control_device_tool, add_device_tool, call_tool,
}

-- What holds of the store before the exchange and the call holds after them, through the retry.
module _ {ℓ} {S T : Type 0} {A : Type ℓ} (P : S → Type 0) (workload : Workload)
    (exchanger : Text → Scope → Exec S (T × ℕ)) (caller : CacheCaller) (scope : Scope)
    (call : T → Workload → Exec S A)
    (exchanged : (credential : Text) (s : S) → P s → P (exchanger credential scope s).1)
    (called : (token : T) (s : S) → P s → P (call token workload s).1) where
  obtained_keeps :
      (later : ℕ) (cache : List (CacheEntry T)) (got : Result (T × ℕ) × S)
      → P got.1
      → P (obtained later caller scope cache got).1.1
  obtained_keeps later cache (ok _, s) h = h
  obtained_keeps later cache (err _, s) h = h

  reused_keeps :
      (later : ℕ) (held : Option T) (state : List (CacheEntry T) × S)
      → P state.1
      → P (reused exchanger later caller scope held state).1.1
  reused_keeps later (some _) (cache, s) h = h
  reused_keeps later none (cache, s) h =
      obtained_keeps later cache (exchanger caller.credential scope s)
        (exchanged caller.credential s h)

  token_for_keeps :
      (times : ℕ × ℕ) (state : List (CacheEntry T) × S)
      → P state.1
      → P (token_for exchanger times caller scope state).1.1
  unfolding token_for
  token_for_keeps (now, later) (cache, s) h = reused_keeps later _ (cache, s) h

  called_keeps :
      (got : Result T × (List (CacheEntry T) × S))
      → P got.1.1
      → P (after got (λ token. on_store (call token workload))).1.1
  called_keeps (ok token, (cache, s)) h = called token s h
  called_keeps (err e, (cache, s)) h = h

  reported_keeps : (got : Result A × (List (CacheEntry T) × S)) → P got.1.1 → P (reported got).1.1
  reported_keeps (ok _, left) h = h
  reported_keeps (err _, left) h = h

  attempt_keeps :
      (times : ℕ × ℕ) (state : List (CacheEntry T) × S)
      → P state.1
      → P (attempt workload exchanger caller scope call times state).1.1
  attempt_keeps times state h = called_keeps _ (token_for_keeps times state h)

  recovered_keeps :
      (times : ℕ × ℕ) (got : Result A × (List (CacheEntry T) × S))
      → P got.1.1
      → P (recovered workload exchanger caller scope call times got).1.1
  recovered_keeps times (ok _, left) h = h
  recovered_keeps times (err e, left) h = elim (Bool-cases (is_refused e)) [
    | inl again_refused ↦
        rw again_refused (reported_keeps _ (attempt_keeps times (forgotten caller scope left) h))
    | inr other ↦ rw other h
  ]

  pub run_keeps :
      (times retry_times : ℕ × ℕ) (state : List (CacheEntry T) × S)
      → P state.1
      → P (run workload exchanger caller scope call times retry_times state).1.1
  unfolding run
  run_keeps times retry_times state h = recovered_keeps retry_times _ (attempt_keeps times state h)

with_identity_keeps {ℓ} :
    {A : Type ℓ} (operation : Identity → Exec Tables A) (known : Result Identity) (t : Tables)
    → ((i : Identity) → IsValid (operation i t).1)
    → IsValid t
    → IsValid (with_identity known operation t).1
with_identity_keeps operation (ok i) t each v = each i
with_identity_keeps operation (err e) t each v = v

module _ {T : Type 0} (exchanger : Text → Scope → Exec Tables (T × ℕ))
    (jwt_verify : ℕ → T → Option Payload) (print : ℕ → String) (workload : Workload)
    (enforcing : Bool) (challenge : Option String) (request_id : String) (times : ToolTimes) where
  abbrev answer_of : T → Scope → Result Identity
  answer_of token scope = verify_internal_token jwt_verify times.at token workload scope request_id

  module _
      (exchange_only : (credential : Text) (scope : Scope) (t : Tables)
        → (exchanger credential scope t).1 ≡ t) where
    run_tool-IsValid :
        {A : Type 0} (made : A → ToolAnswer) (verified : Verified) (credential : Text)
        (scope : Scope) (call : T → Workload → Exec Tables A) (windows : Dict Window)
        (s : ToolState T)
        → ((token : T) (t : Tables) → IsValid t → IsValid (call token workload t).1)
        → IsValid s.tables
        → IsValid
            (run_tool exchanger jwt_verify print workload enforcing challenge request_id times made
              verified credential scope call windows s).1.tables
    run_tool-IsValid made verified credential scope call windows s each v =
        run_keeps IsValid workload exchanger
          (record { verified = verified; credential = credential }) scope call
          (λ c t h. rw (exchange_only c scope t) h) each times.attempted times.retried
          (s.cache, s.tables) v

    budgeted-IsValid :
        {A : Type 0} (made : A → ToolAnswer) (verified : Verified) (credential : Text)
        (scope : Scope) (call : T → Workload → Exec Tables A) (s : ToolState T)
        (budget : BucketResult × Dict Window)
        → ((token : T) (t : Tables) → IsValid t → IsValid (call token workload t).1)
        → IsValid s.tables
        → IsValid
            (budgeted exchanger jwt_verify print workload enforcing challenge request_id times made
              verified credential scope call s budget).1.tables
    budgeted-IsValid made verified credential scope call s (refused _, windows) each v = v
    budgeted-IsValid made verified credential scope call s (allowed, windows) each v =
        run_tool-IsValid made verified credential scope call windows s each v

    -- Every call of a device tool, by whomever and however it ends, leaves valid tables as valid
    -- tables: where the exchange touches no device.
    pub call_tool-IsValid :
        (call : ToolCall) (caller : Caller) (s : ToolState T)
        → IsValid s.tables
        → IsValid
            (call_tool exchanger jwt_verify print workload enforcing challenge request_id times call
              caller s).1.tables
    unfolding call_tool list_devices_tool get_device_tool control_device_tool add_device_tool
        service_list service_get service_control service_add
    call_tool-IsValid (list_call id_leb) anonymous s v = v
    call_tool-IsValid (get_call device_id) anonymous s v = v
    call_tool-IsValid (control_call input) anonymous s v = v
    call_tool-IsValid (add_call env new_id name) anonymous s v = v
    call_tool-IsValid (list_call id_leb) (verified_caller verified credential) s v =
        run_tool-IsValid devices_listed verified credential devices_read _ s.windows s
          (λ token t h.
            with_identity_keeps (list_devices id_leb) (answer_of token devices_read) t
              (λ i. rw (list-reads id_leb i t) h) h)
          v
    call_tool-IsValid (get_call device_id) (verified_caller verified credential) s v =
        run_tool-IsValid device_given verified credential devices_read _ s.windows s
          (λ token t h.
            with_identity_keeps (λ i. get_device i device_id) (answer_of token devices_read) t
              (λ i. rw (get-reads i device_id t) h) h)
          v
    call_tool-IsValid (control_call input) (verified_caller verified credential) s v =
        budgeted-IsValid device_given verified credential devices_control _ s _
          (λ token t h.
            with_identity_keeps (λ i. control_device times.at i input)
              (answer_of token devices_control) t (λ i. control_device-IsValid times.at i input t h)
              h)
          v
    call_tool-IsValid (add_call env new_id name) (verified_caller verified credential) s v =
        let input : AddDeviceInput = record { name = some name; idempotency_key = none } in
        budgeted-IsValid device_added verified credential devices_create _ s _
          (λ token t h.
            with_identity_keeps (λ i. add_device env times.at new_id i input)
              (answer_of token devices_create) t
              (λ i. add_device-IsValid env times.at new_id i input t h) h)
          v
