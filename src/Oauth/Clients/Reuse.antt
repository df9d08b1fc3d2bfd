-- ===== src/Oauth/Clients/Reuse.antt =====
-- server/src/oauth/clients.ts: which documents are reused, and for how long.
use mcp_ui.Common.{string_eq}
