-- ===== src/Oauth/Params.antt =====
-- server/src/oauth/config.ts: reading a scope parameter.
use mcp_ui.Common.{Bool, false, Option, none, some, List, [], ◌∷◌}
use mcp_ui.Common.Rows.{select, any}
use mcp_ui.Normalize.{Text, is_space}
use mcp_ui.Oauth.Scope.{words, includes}
use mcp_ui.Mcp.Policy.{Scope, devices_read, devices_control, devices_create, scope_text}

abbrev pub scopes : List Scope
scopes = devices_read ∷ devices_control ∷ devices_create ∷ []

-- 'offline_access'
abbrev pub offline_access : Text
offline_access = 111 ∷ 102 ∷ 102 ∷ 108 ∷ 105 ∷ 110 ∷ 101 ∷ 95 ∷ 97 ∷ 99 ∷ 99 ∷ 101 ∷ 115 ∷ 115 ∷ []

-- `requestsOfflineAccess`; the empty words of the split are never 'offline_access'.
unfoldable pub requests_offline_access : Option Text → Bool
requests_offline_access none = false
requests_offline_access (some raw) = includes (words is_space raw) offline_access

-- `isScope`
unfoldable pub is_scope : Text → Bool
is_scope value = any (λ s. includes (value ∷ []) (scope_text s)) scopes

-- `parseScopes`
unfoldable pub parse_scopes : Option Text → List Scope
parse_scopes none = []
parse_scopes (some raw) =
    let unique = select is_scope (words is_space raw) in
    select (λ s. includes unique (scope_text s)) scopes
