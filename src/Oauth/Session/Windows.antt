-- ===== src/Oauth/Session/Windows.antt =====
-- server/src/oauth/session.ts: how long a session lives, over any history of sessions.
use mcp_ui.Common.{
  ℕ, ◌+◌, ◌≤◌, ◌<◌, ◌≡◌, refl, ap, String, Bool, true, false, inl, inr, Option, none, some, List,
  [], ◌∷◌, string_eq, arith, Bool-cases, if◌then◌else◌,
}
use mcp_ui.Common.Rows.{first, All}
use mcp_ui.Common.Rows.Laws.{All-update, All-at, first-some}
use mcp_ui.Normalize.{Text}
use mcp_ui.Tokens.{TokenKind, well_formed}
use mcp_ui.Oauth.Types.{Env, seconds}
use mcp_ui.Oauth.Session.{
  SessionRow, AsSession, as_session_absolute_seconds, start_as_session, live, extended, session_of,
  read_as_session, revoked, revoke_as_session, revoke_all_as_sessions,
}

-- What a browser or a person may cause.
pub data SessionCall : Type 0 where
  start : Text → String → String → SessionCall
  read : Option Text → SessionCall
  revoke : Option Text → SessionCall
  revoke_all : String → SessionCall

unfoldable pub step : Env → ℕ → SessionCall → List SessionRow → List SessionRow
step env now (start random account_id acr) rows =
    (start_as_session env now random account_id acr rows).1
step env now (read token) rows = (read_as_session env now token rows).1
step env now (revoke token) rows = revoke_as_session env now token rows
step env now (revoke_all account_id) rows = revoke_all_as_sessions now account_id rows

-- A history: calls with their times.
unfoldable pub run : Env → List (ℕ × SessionCall) → List SessionRow → List SessionRow
run env [] rows = rows
run env ((now, call) ∷ calls) rows = run env calls (step env now call rows)

-- Twelve hours after its sign-in at the latest a session is over, and no idle window outlasts it.
pub record IsBounded (row : SessionRow) : Type 0 where
  pub absolute : row.absolute_expires_at ≡ row.auth_time + seconds as_session_absolute_seconds
  pub idle : row.idle_expires_at ≤ row.absolute_expires_at

pub either : {A : Type 0} (P : A → Type 0) (b : Bool) {x y : A} → P x → P y → P (if b then x else y)
either P true h k = h
either P false h k = k

module _ (env : Env) (now : ℕ) where
  extended-IsBounded : (row : SessionRow) → IsBounded row → IsBounded (extended now row)
  extended-IsBounded row h = record { absolute = h.absolute; idle = ground arith }

  revoked-IsBounded : (row : SessionRow) → IsBounded row → IsBounded (revoked now row)
  revoked-IsBounded row h = record { absolute = h.absolute; idle = h.idle }

  step-IsBounded :
      (call : SessionCall) (rows : List SessionRow)
      → All IsBounded rows
      → All IsBounded (step env now call rows)
  unfolding step start_as_session read_as_session revoke_as_session revoke_all_as_sessions
  step-IsBounded (start random account_id acr) rows h =
      (record { absolute = refl; idle = ground arith }, h)
  step-IsBounded (read none) rows h = h
  step-IsBounded (read (some token)) rows h =
      either (λ (r : Option AsSession × List SessionRow). All IsBounded r.1)
        (well_formed env.crc32 TokenKind.session token)
        (All-update IsBounded (live env now token) (extended now) rows
          (λ row _ k. extended-IsBounded row k) h)
        h
  step-IsBounded (revoke none) rows h = h
  step-IsBounded (revoke (some token)) rows h =
      either (All IsBounded) (well_formed env.crc32 TokenKind.session token)
        (All-update IsBounded _ (revoked now) rows (λ row _ k. revoked-IsBounded row k) h) h
  step-IsBounded (revoke_all account_id) rows h =
      All-update IsBounded _ (revoked now) rows (λ row _ k. revoked-IsBounded row k) h

run-IsBounded :
    (env : Env) (calls : List (ℕ × SessionCall)) (rows : List SessionRow)
    → All IsBounded rows
    → All IsBounded (run env calls rows)
unfolding run
run-IsBounded env [] rows h = h
run-IsBounded env ((now, call) ∷ calls) rows h =
    run-IsBounded env calls (step env now call rows) (step-IsBounded env now call rows h)

found-bounded :
    (env : Env) (now : ℕ) (token : Text) (o : Option SessionRow) (rows : List SessionRow)
    {s : AsSession}
    → All IsBounded rows
    → first (live env now token) rows ≡ o
    → session_of now o ≡ some s
    → now < s.auth_time + seconds as_session_absolute_seconds
found-bounded env now token none rows h found e = absurd cc
found-bounded env now token (some row) rows {s} h found e =
    let (alive, m) = first-some (live env now token) rows found in
    let bound = (All-at IsBounded rows h m).absolute in
    let fields = some_inj e in
    let same : row.auth_time ≡ s.auth_time = ap (λ s. s.auth_time) fields in ground arith
  where
    some_inj : {A : Type 0} {a b : A} → some a ≡ some b → a ≡ b
    some_inj e = cc

-- After any history of sessions, however often a session was read, it is accepted only within
-- twelve hours of the sign-in that it began with.
pub session_bounded :
    (env : Env) (calls : List (ℕ × SessionCall)) (now : ℕ) (token : Option Text) {s : AsSession}
    → (read_as_session env now token (run env calls [])).0 ≡ some s
    → now < s.auth_time + seconds as_session_absolute_seconds
unfolding read_as_session
session_bounded env calls now none e = absurd cc
session_bounded env calls now (some token) e =
    let rows = run env calls [] in
    elim (Bool-cases (well_formed env.crc32 TokenKind.session token)) [
      | inl good ↦
          found-bounded env now token (first (live env now token) rows) rows
            (run-IsBounded env calls [] tt) refl (rw good at e)
      | inr bad ↦ absurd (ground arith)
    ]
