-- ===== src/Oauth/Authorize/Steps.antt =====
-- server/src/oauth/authorize.ts: what the steps of an authorization share. An answer is kept as
-- what it says and where it leads; the pages' HTML is not. A redirect URI was parsed when its request
-- was accepted, so `new URL` of it does not throw.
use mcp_ui.Common.{
  ℕ, String, Bool, false, ◌||◌, not, Option, none, some, List, [], ◌∷◌, leb, ◌==◌, nat_eq,
  string_eq, list_eq, if◌then◌else◌,
}
use mcp_ui.Common.Rows.{any}
use mcp_ui.Normalize.{Text, Unicode}
use mcp_ui.Tokens.{TokenKind, mint, well_formed}
use mcp_ui.Mcp.Policy.{scope_text, devices_read}
use mcp_ui.Errors.{Failure}
use mcp_ui.Accounts.{AccountRow, Passwords}
use mcp_ui.Oauth.Types.{Env, PendingAuthorization, Tables}
use mcp_ui.Oauth.Codes.{
  read_pending_authorization, pending_belongs_to, CodeContext, claim_and_issue_code,
}
use mcp_ui.Oauth.Pushed.{PushedRow}
use mcp_ui.Oauth.Session.{SessionRow, AsSession, read_as_session}
use mcp_ui.Oauth.Consents.{ConsentRow}
use mcp_ui.Oauth.Clients.Resolve.{Directory, ClientTables}
use mcp_ui.Oauth.Authorize.Request.{Params}

pub record World : Type 0 where
  pub env : Env
  pub dir : Directory
  pub unicode : Unicode
  pub passwords : Passwords
  -- `mac(purpose, ...parts)`
  pub mac : String → List Text → String
  -- what follows the prefix, where the text starts with it
  pub after_prefix : String → String → Option String
  -- the JSON of those parameters that are texts, and its reading
  pub stringify : Params → Text
  pub parse : Text → Params

pub record State : Type 0 where
  pub clients : ClientTables
  pub tables : Tables
  pub pushed : List PushedRow
  pub sessions : List SessionRow
  pub consents : List ConsentRow
  pub accounts : List AccountRow

-- What a call draws at random: ids, and the bodies of tokens.
pub record FlowDraws : Type 0 where
  pub pending_id : String
  pub pushed_id : String
  pub consent_id : String
  pub account_id : String
  pub salt : Text
  pub binding : Text
  pub session : Text
  pub code : Text

pub record Cookies : Type 0 where
  pub binding : Option Text
  pub session : Option Text

-- The fields of a form; a field of another type is none.
pub record Form : Type 0 where
  pub pending : Option String
  pub csrf : Option String
  pub signup : Bool
  pub username : Option Text
  pub password : Option Text

pub data Response : Type 0 where
  error_page : ℕ → String → Response
  error_to : String → Option String → String → String → Response
  code_to : String → Text → Option String → Response
  to_login : String → Bool → Bool → Response
  to_consent : String → Response
  login_page : String → String → Bool → Option String → Response
  consent_page : String → String → Text → Response
  par_created : String → ℕ → Response
  par_refused : String → Response
  failed : Failure → Response

pub data CookieChange : Type 0 where
  kept cleared : CookieChange
  set : Text → CookieChange

pub record Reply : Type 0 where
  pub response : Response
  pub binding_cookie : CookieChange
  pub session_cookie : CookieChange

abbrev pub plain : Response → Reply
plain response = record { response = response; binding_cookie = kept; session_cookie = kept }

abbrev pub recent_sign_in_seconds : ℕ
recent_sign_in_seconds = 900

-- `writes`
unfoldable pub writes : PendingAuthorization → Bool
writes pending = any (λ scope. not (scope == scope_text devices_read)) pending.request.scopes

-- `recentEnough`
unfoldable pub recent_enough : PendingAuthorization → AsSession → Bool
recent_enough pending session =
    not (writes pending) || leb session.auth_age_seconds recent_sign_in_seconds

-- `csrfFor`
abbrev pub csrf_for : World → PendingAuthorization → Text → String
csrf_for w pending binding = w.mac "authorize-csrf" (w.dir.web.units pending.id ∷ binding ∷ [])

-- `macMatches`
unfoldable pub mac_matches : String → Option String → Bool
mac_matches expected none = false
mac_matches expected (some presented) = expected == presented

-- `ensureBinding`: the value, and the cookie that is set.
abbrev pub ensure_binding : World → Text → Option Text → Text × CookieChange
ensure_binding w random none =
    let fresh = mint w.env.crc32 TokenKind.binding random in (fresh, set fresh)
ensure_binding w random (some existing) =
    if well_formed w.env.crc32 TokenKind.binding existing
    then (existing, kept)
    else (let fresh = mint w.env.crc32 TokenKind.binding random in (fresh, set fresh))

-- What `loadStep` gives: the authorization with the binding, or the page that was shown.
pub data Step : Type 0 where
  go : PendingAuthorization → Text → Step
  stop : Response → Step

abbrev pub step_for : World → Option Text → Option PendingAuthorization → Step
step_for w binding none = stop (error_page 400 "This sign-in link has expired")
step_for w none (some pending) = stop (error_page 400 "Open this in the browser you started from")
step_for w (some binding) (some pending) =
    if pending_belongs_to w.env pending (some binding)
    then go pending binding
    else stop (error_page 400 "Open this in the browser you started from")

abbrev pub read_pending : ℕ → Option String → Tables → Option PendingAuthorization
read_pending now none t = none
read_pending now (some id) t = read_pending_authorization now id t

-- `loadStep`
unfoldable pub load_step : World → ℕ → Cookies → Option String → State → Step
load_step w now cookies id s = step_for w cookies.binding (read_pending now id s.tables)

-- `currentSession`
unfoldable pub current_session : World → ℕ → Cookies → State → Option AsSession × State
current_session w now cookies s =
    let (session, rows) = read_as_session w.env now cookies.session s.sessions in
    (session, record s { sessions = rows })

abbrev pub code_answer : PendingAuthorization → Option Text → Response
code_answer pending none = error_page 400 "This sign-in link has already been used"
code_answer pending (some code) = code_to pending.request.redirect_uri code pending.request.state

-- `complete`
unfoldable pub complete :
    World → ℕ → FlowDraws → PendingAuthorization → AsSession → Option String → State → Reply × State
complete w now draws pending session consent_id s =
    let context : CodeContext = record { auth_time = session.auth_time; consent_id = consent_id } in
    let (code, tables) =
      claim_and_issue_code w.env now draws.code session.account_id pending context s.tables in
    (plain (code_answer pending code), record s { tables = tables })

-- `refuseForm`
abbrev pub form_expired : Response
form_expired = error_page 403 "This form has expired"
