-- ===== src/Mcp/Policy.antt =====
-- server/src/mcp/policy.ts and mcp/config.ts, with the scopes of server/src/oauth/config.ts.
use mcp_ui.Common.{
  String, Bool, true, false, ◌||◌, Option, none, some, [], ◌∷◌, ◌++◌, ◌==◌, string_eq,
  if◌then◌else◌, List,
}
use mcp_ui.Normalize.{Text}

pub data Scope : Type 0 where
  devices_read devices_control devices_create : Scope

abbrev pub devices_colon : Text
devices_colon = 100 ∷ 101 ∷ 118 ∷ 105 ∷ 99 ∷ 101 ∷ 115 ∷ 58 ∷ []

-- 'devices:read', 'devices:control' and 'devices:create'.
unfoldable pub scope_text : Scope → Text
scope_text devices_read = devices_colon ++ 114 ∷ 101 ∷ 97 ∷ 100 ∷ []
scope_text devices_control = devices_colon ++ 99 ∷ 111 ∷ 110 ∷ 116 ∷ 114 ∷ 111 ∷ 108 ∷ []
scope_text devices_create = devices_colon ++ 99 ∷ 114 ∷ 101 ∷ 97 ∷ 116 ∷ 101 ∷ []

pub data WriteKind : Type 0 where
  control create : WriteKind

pub record ToolAnnotations : Type 0 where
  pub read_only_hint : Bool
  pub destructive_hint : Bool
  pub idempotent_hint : Bool
  pub open_world_hint : Bool

pub record ToolPolicy : Type 0 where
  pub scope : Option Scope
  pub annotations : ToolAnnotations
  pub budget : Option WriteKind

abbrev pub read_only : ToolAnnotations
read_only = record {
  read_only_hint = true;
  destructive_hint = false;
  idempotent_hint = true;
  open_world_hint = false;
}

abbrev pub write : ToolAnnotations
write = record {
  read_only_hint = false;
  destructive_hint = false;
  idempotent_hint = false;
  open_world_hint = false;
}

abbrev reads : Option Scope → Option ToolPolicy
reads scope = some (record { scope = scope; annotations = read_only; budget = none })

-- `policyFor`, by the rows of `TOOL_POLICY`.
unfoldable pub policy_for : String → Option ToolPolicy
policy_for name =
    if name == "list_devices" || name == "get_device"
    then reads (some devices_read)
    else (if name == "control_device"
        then some
            (record { scope = some devices_control; annotations = write; budget = some control })
        else (if name == "add_device"
            then some
                (record { scope = some devices_create; annotations = write; budget = some create })
            else (if name == "get_auth_status" || (name == "show_auth" || name == "show_add_device")
                then reads none
                else none)))

-- `annotationsFor`; it throws for a tool that the table lacks.
unfoldable pub annotations_for : String → Option ToolAnnotations
annotations_for name = elim (policy_for name) [
  | none ↦ none
  | some policy ↦ some policy.annotations
]

pub data SecurityScheme : Type 0 where
  oauth2 : Scope → SecurityScheme
  noauth : SecurityScheme

-- `requiredScopeFor` of server/src/mcp/config.ts.
unfoldable pub required_scope_for : String → Option Scope
required_scope_for name = elim (policy_for name) [ none ↦ none | some policy ↦ policy.scope ]

-- `securitySchemesFor` of server/src/mcp/config.ts, a list of one.
unfoldable pub security_schemes_for : String → List SecurityScheme
security_schemes_for name = elim (required_scope_for name) [
  | none ↦ noauth ∷ []
  | some scope ↦ oauth2 scope ∷ []
]
