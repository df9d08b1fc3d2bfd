-- ===== src/Replay.antt =====
-- server/src/security/replay.ts: identifiers that may be presented once. Times are in
-- milliseconds, the life of an identifier is in seconds.
pub mod Once
use mcp_ui.Common.{
  ℕ, ◌+◌, ◌*◌, String, Bool, true, false, Option, none, some, leb, ltb, if◌then◌else◌,
}
use mcp_ui.Common.Dict.{Dict, get, put, size, sweep}

abbrev pub max_seen : ℕ
max_seen = 10000

-- The sweep of a map that has grown too large: `if (expiry <= now) this.seen.delete(k)`.
abbrev pub swept : ℕ → Dict ℕ → Dict ℕ
swept now seen = if ltb max_seen (size seen) then sweep (λ expiry. leb expiry now) seen else seen

-- `this.seen.set(key, now + ttlSeconds * 1000); return true`
abbrev pub accept : String → ℕ → ℕ → Dict ℕ → Bool × Dict ℕ
accept key ttl_seconds now seen = (true, put key (now + ttl_seconds * 1000) seen)

-- `MemoryReplayStore.claim`
unfoldable pub claim : String → ℕ → ℕ → Dict ℕ → Bool × Dict ℕ
claim key ttl_seconds now seen = elim (get key (swept now seen)) [
  | none ↦ accept key ttl_seconds now (swept now seen)
  | some expiry ↦
      if ltb now expiry
      then (false, swept now seen)
      else accept key ttl_seconds now (swept now seen)
]
