-- ===== src/Oauth/Pushed.antt =====
-- server/src/oauth/store.ts: pushed authorization requests (RFC 9126), kept a minute and taken
-- once. The parameters are kept as the text of their JSON.
use mcp_ui.Common.{
  ℕ, ◌+◌, ◌<◌, ◌≤◌, ◌≡◌, refl, ap, String, Bool, true, false, beq_self, ◌&&◌, Option, none, some,
  List, ◌∷◌, ltb, ◌==◌, string_eq, arith,
}
use mcp_ui.Common.Rows.{first, delete}
use mcp_ui.Common.Rows.Laws.{first-none_of, delete-All, All-of, All-at}
use mcp_ui.Normalize.{Text}
use mcp_ui.Oauth.Types.{seconds}

pub record PushedRow : Type 0 where
  pub id : String
  pub client_id : String
  pub params : Text
  pub expires_at : ℕ

-- `storePushedRequest`; the id is drawn at random.
unfoldable pub store_pushed_request :
    ℕ → String → String → Text → List PushedRow → String × List PushedRow
store_pushed_request now id client_id params t =
    let row : PushedRow = record {
      id = id;
      client_id = client_id;
      params = params;
      expires_at = now + seconds 60;
    } in
    (id, row ∷ t)

-- The WHERE of the DELETE.
abbrev pub takeable : ℕ → String → String → PushedRow → Bool
takeable now id client_id row =
    row.id == id && (row.client_id == client_id && ltb now row.expires_at)

abbrev pub params_of : Option PushedRow → Option Text
params_of none = none
params_of (some row) = some row.params

-- `takePushedRequest`
unfoldable pub take_pushed_request :
    ℕ → String → String → List PushedRow → Option Text × List PushedRow
take_pushed_request now id client_id t =
    (params_of (first (takeable now id client_id) t), delete (takeable now id client_id) t)

first-here :
    (p : PushedRow → Bool) (r : PushedRow) (t : List PushedRow)
    → p r ≡ true
    → first p (r ∷ t) ≡ some r
unfolding first
first-here p r t e = rw e refl

-- A pushed request is taken once: whatever the first request for it got, a later one by the same
-- client gets nothing. The clock has not gone back between the two.
pub take_pushed_once :
    (now later : ℕ) (id client_id : String) (t : List PushedRow)
    → now ≤ later
    → (take_pushed_request later id client_id (take_pushed_request now id client_id t).1).0 ≡ none
unfolding take_pushed_request
take_pushed_once now later id client_id t le =
    let rest = delete (takeable now id client_id) t in
    let spent =
      All-of (λ r. takeable later id client_id r ≡ false) rest
        (λ r m. expired_later r (
          All-at (λ r. takeable now id client_id r ≡ false) rest
            (delete-All (takeable now id client_id) t) m)) in
    ap params_of (first-none_of (takeable later id client_id) rest spent)
  where
    expired_later :
        (r : PushedRow)
        → takeable now id client_id r ≡ false
        → takeable later id client_id r ≡ false
    expired_later r e = ground arith

-- A request that a client has pushed gives its parameters back to that client until its minute is
-- over.
pub take-store_pushed_request :
    (now later : ℕ) (id client_id : String) (params : Text) (t : List PushedRow)
    → later < now + seconds 60
    → (take_pushed_request later id client_id (store_pushed_request now id client_id params t).1).0
      ≡ some params
unfolding take_pushed_request store_pushed_request
take-store_pushed_request now later id client_id params t live = ap params_of found
  where
    row : PushedRow
    row = record { id = id; client_id = client_id; params = params; expires_at = now + seconds 60 }

    on : takeable later id client_id row ≡ true
    on = rw (beq_self id, beq_self client_id) (ground arith)

    found : first (takeable later id client_id) (row ∷ t) ≡ some row
    found = first-here (takeable later id client_id) row t on
