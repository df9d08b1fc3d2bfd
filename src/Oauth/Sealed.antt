-- ===== src/Oauth/Sealed.antt =====
-- server/src/oauth/sealed.ts: answers of refreshes kept encrypted for the grace window. The cipher
-- (AES-256-GCM with the store key as associated data) is a parameter.
use mcp_ui.Common.{ℕ, ◌+◌, ◌≡◌, String, Option, none, some, leb, if◌then◌else◌}
use mcp_ui.Common.Dict.{Dict, get, put, sweep, remove}
use mcp_ui.Oauth.Types.{seconds}

-- What the store needs of `Sealer`: a box is the ciphertext of a body, made and opened under a key.
pub record Sealer (Body Box : Type 0) : Type 0 where
  pub close : String → Body → Box
  pub open' : String → Box → Option Body

-- A sealed body opens under the key that it was sealed with.
abbrev pub Opens : {Body Box : Type 0} → Sealer Body Box → Type 0
Opens {Body} sealer =
    (key : String) (body : Body) → sealer.open' key (sealer.close key body) ≡ some body

pub record Entry (Box : Type 0) : Type 0 where
  pub sealed : Box
  pub expires_at : ℕ

module _ {Body Box : Type 0} (sealer : Sealer Body Box) where
  -- `MemorySealedResponses.seal`
  unfoldable pub seal : ℕ → String → Body → ℕ → Dict (Entry Box) → Dict (Entry Box)
  seal now key body ttl_seconds entries =
      put key (record { sealed = sealer.close key body; expires_at = now + seconds ttl_seconds })
        (sweep (λ e. leb e.expires_at now) entries)

  -- What `unseal` makes of the entry that it has found.
  abbrev pub opened :
      ℕ → String → Dict (Entry Box) → Option (Entry Box) → Option Body × Dict (Entry Box)
  opened now key entries none = (none, entries)
  opened now key entries (some entry) =
      if leb entry.expires_at now
      then (none, remove key entries)
      else (sealer.open' key entry.sealed, entries)

  -- `MemorySealedResponses.unseal`
  unfoldable pub unseal : ℕ → String → Dict (Entry Box) → Option Body × Dict (Entry Box)
  unseal now key entries = opened now key entries (get key entries)
