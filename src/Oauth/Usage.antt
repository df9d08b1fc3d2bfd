-- ===== src/Oauth/Usage.antt =====
-- server/src/oauth/grant-usage.ts: when a grant was last used. The times are kept apart from the
-- rows of the grants, since nothing else reads them.
use mcp_ui.Common.{
  ℕ, ◌+◌, ◌-◌, ◌<◌, ◌≡◌, refl, ◌∙◌, String, Bool, true, false, ◌&&◌, Option, none, some, List, leb,
  ltb, ◌==◌, string_eq, if◌then◌else◌, arith, Bool-cases, inl, inr, beq_self,
}
use mcp_ui.Common.Rows.{update}
use mcp_ui.Common.Dict.{Dict, get, put, size, sweep, IsMap, get-put, get-sweep, put-IsMap}

pub record UsageRow : Type 0 where
  pub grant_id : String
  pub last_used_at : Option ℕ

pub record Usage : Type 0 where
  pub last_touched : Dict ℕ
  pub rows : List UsageRow

-- `last_used_at IS NULL OR last_used_at < now() - interval '1 minute'`
abbrev pub is_stale : ℕ → Option ℕ → Bool
is_stale now none = true
is_stale now (some at) = ltb (at + 60000) now

-- `previous !== undefined && now - previous < 60_000`
abbrev pub just_touched : ℕ → Option ℕ → Bool
just_touched now none = false
just_touched now (some previous) = ltb (now - previous) 60000

abbrev pub remember : ℕ → String → Dict ℕ → Dict ℕ
remember now grant_id touched =
    let stored = put grant_id now touched in
    if ltb 50000 (size stored) then sweep (λ at. leb 60000 (now - at)) stored else stored

-- `touchGrant`
unfoldable pub touch_grant : ℕ → String → Usage → Usage
touch_grant now grant_id u = if just_touched now (get grant_id u.last_touched) then u else record {
  last_touched = remember now grant_id u.last_touched;
  rows =
      update (λ r. r.grant_id == grant_id && is_stale now r.last_used_at)
        (λ r. record r { last_used_at = some now }) u.rows;
}

remembered :
    (now : ℕ) (grant_id : String) (touched : Dict ℕ)
    → IsMap touched
    → get grant_id (remember now grant_id touched) ≡ some now
remembered now grant_id touched map =
    let stored : get grant_id (put grant_id now touched) ≡ some now =
      get-put grant_id grant_id now touched ∙ rw (beq_self grant_id) refl in
    elim (Bool-cases (ltb 50000 (size (put grant_id now touched)))) [
      | inr small ↦ rw small stored
      | inl large ↦ rw large (
          get-sweep (λ at. leb 60000 (now - at)) grant_id (put grant_id now touched)
            (put-IsMap grant_id now touched map)
          ∙ rw stored (ground arith))
    ]

-- A grant that was not touched before is written once in a minute: a second touch less than a
-- minute later changes nothing, neither what is remembered nor the rows.
pub touch_twice :
    (now later : ℕ) (grant_id : String) (u : Usage)
    → IsMap u.last_touched
    → get grant_id u.last_touched ≡ none
    → later < now + 60000
    → touch_grant later grant_id (touch_grant now grant_id u) ≡ touch_grant now grant_id u
unfolding touch_grant
touch_twice now later grant_id u map fresh soon =
    rw fresh (rw (remembered now grant_id u.last_touched map) (ground arith))
