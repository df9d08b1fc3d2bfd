-- ===== src/Internal/CacheTests.antt =====
-- Concrete histories of an adapter's cache of internal tokens. Tokens are numbers in the order of
-- their exchange.
use mcp_ui.Common.{ℕ, zero, suc, ◌≡◌, refl, String, none, List, [], string_eq}
use mcp_ui.Common.Rows.{first, delete}
use mcp_ui.Normalize.{Text}
use mcp_ui.Errors.{internal_error, throw_code}
use mcp_ui.Exec.{ok, err, Exec}
use mcp_ui.Mcp.Policy.{Scope, devices_read}
use mcp_ui.Internal.Workload.{Workload, Confirmation, mcp_rs}
use mcp_ui.Internal.Service.{internal_token_refused}
use mcp_ui.Internal.Cache.{
  CacheEntry, CacheCaller, grant_revoked, is_refused, revokes, on_revocation, remember, forget,
  token_for, attempt, run,
}
use mcp_ui.Internal.Held.{revoked-unheld}

abbrev adapter : Workload
adapter = record { name = mcp_rs; cnf = Confirmation.jkt "bound" }

abbrev caller : CacheCaller
caller = record {
  verified = record {
    account_id = "alice";
    client_id = "client";
    grant_id = "g1";
    scopes = [];
    expires_in = 600;
    cnf_jkt = none;
  };
  credential = [];
}

abbrev next : Text → Scope → Exec ℕ (ℕ × ℕ)
next credential scope n = (ok (n, 60), suc n)

-- The first token is refused, as after a rotation of the keys.
abbrev refuse_first : ℕ → Workload → Exec ℕ String
refuse_first zero peer s = (err internal_token_refused, s)
refuse_first (suc n) peer s = (ok "done", s)

abbrev refuse_all : ℕ → Workload → Exec ℕ String
refuse_all token peer s = (err internal_token_refused, s)

abbrev held : List (CacheEntry ℕ)
held = remember 1000 caller devices_read 7 60 []

-- A token with more than ten seconds left is used again.
hit : token_for next (50999, 51000) caller devices_read (held, 8) ≡ (ok 7, (held, 8))
unfolding token_for remember first
hit = refl

miss : (token_for next (51000, 51001) caller devices_read (held, 8)).0 ≡ ok 8
unfolding token_for remember first
miss = refl

revoked :
    (token_for next (2000, 2001) caller devices_read (on_revocation (grant_revoked "g1") held, 8)).0
    ≡ ok 8
unfolding token_for remember first on_revocation revokes delete
revoked = refl

revoked-unheld_example :
    (expires_in : ℕ) × ((next caller.credential devices_read 8).0 ≡ ok (8, expires_in))
unfolding remember delete
revoked-unheld_example =
    revoked-unheld next caller devices_read (2000, 2001) held 8 (refl, tt) revoked

failed :
    (run adapter next caller devices_read refuse_all (0, 1) (2, 3) ([], 0)).0
    ≡ err (throw_code internal_error)
unfolding run token_for remember forget first delete is_refused
failed = refl

refused_once :
    attempt adapter next caller devices_read refuse_first (0, 1) ([], 0)
    ≡ (err internal_token_refused, (remember 1 caller devices_read 0 60 [], 1))
unfolding token_for first
refused_once = refl
