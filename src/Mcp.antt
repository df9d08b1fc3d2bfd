-- ===== src/Mcp.antt =====
-- server/src/mcp: what each tool requires, and the gate in front of the tools.
pub mod Policy
pub mod Gate
pub mod Tools
