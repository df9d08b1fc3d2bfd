-- ===== src/Oauth/Authorize/Routes.antt =====
-- server/src/oauth/authorize.ts: the routes up to the sign-in, but for those of passkeys. Each is a call with its time and draws; the awaits of one call are taken as done before
-- the next call begins.
use mcp_ui.Common.{ℕ, String, Bool, true, false, not, Option, none, some, List, [], if◌then◌else◌}
use mcp_ui.Normalize.{Text}
use mcp_ui.Errors.{Failure, app, unique_violation, other_error}
use mcp_ui.Exec.{Result, ok, err}
use mcp_ui.Accounts.{Account, AccountRow, create_account, verify_credentials}
use mcp_ui.Oauth.Types.{PendingAuthorization, is_set}
use mcp_ui.Oauth.Codes.{create_pending_authorization}
use mcp_ui.Oauth.Pushed.{store_pushed_request, take_pushed_request}
use mcp_ui.Oauth.Session.{start_as_session, revoke_as_session}
use mcp_ui.Oauth.Authorize.Request.{
  Params, PageError, unrecognised_application, unrecognised_redirect, Validated, accepted, on_page,
  sent_back, text_of, validate_authorization,
}
use mcp_ui.Oauth.Authorize.Steps.{
  World, State, FlowDraws, Cookies, Form, Response, error_page, error_to, to_login, to_consent,
  login_page, par_created, par_refused, kept, set, Reply, plain, csrf_for, mac_matches,
  ensure_binding, Step, go, stop, load_step, current_session, form_expired,
}
use Prim.Native.String.{◌++◌ as ◌then_text◌}

module _ (w : World) (now : ℕ) (draws : FlowDraws) where
  abbrev pub page_title : PageError → String
  page_title unrecognised_application = "Unrecognised application"
  page_title unrecognised_redirect = "Unrecognised redirect address"

  -- What GET /authorize does with its checks: an answer, or a pending authorization bound to this
  -- browser.
  abbrev pub begin : Cookies → Validated × State → Reply × State
  begin cookies (on_page error, s) = (plain (error_page 400 (page_title error)), s)
  begin cookies (sent_back uri state error description, s) =
      (plain (error_to uri state error description), s)
  begin cookies (accepted pending start_with_sign_up, s) =
      let (binding, change) = ensure_binding w draws.binding cookies.binding in
      let (id, tables) =
        create_pending_authorization w.env now draws.pending_id pending binding s.tables in
      let (session, s') = current_session w now cookies (record s { tables = tables }) in
      (
        record {
          response = if is_set session then to_consent id else to_login id false start_with_sign_up;
          binding_cookie = change;
          session_cookie = kept;
        },
        s',
      )

  abbrev pub validated : Params → Bool → State → Validated × State
  validated params pushed s =
      let (v, clients) = validate_authorization w.env w.dir now params pushed s.clients in
      (v, record s { clients = clients })

  abbrev pub request_uri_prefix : String
  request_uri_prefix = "urn:ietf:params:oauth:request_uri:"

  -- `parRequestId`
  abbrev pub par_request_id : String → String
  par_request_id request_uri = elim (w.after_prefix request_uri_prefix request_uri) [
    | none ↦ ""
    | some id ↦ id
  ]

  abbrev pub begin_pushed : Cookies → Option Text → State → Reply × State
  begin_pushed cookies none s = (plain (error_page 400 "This sign-in link has expired"), s)
  begin_pushed cookies (some text) s = begin cookies (validated (w.parse text) true s)

  abbrev pub take_pushed : Cookies → String → Option String → State → Reply × State
  take_pushed cookies request_uri none s = begin_pushed cookies none s
  take_pushed cookies request_uri (some client_id) s =
      let (text, rows) = take_pushed_request now (par_request_id request_uri) client_id s.pushed in
      begin_pushed cookies text (record s { pushed = rows })

  -- GET /authorize: a resume link, a pushed request, or the parameters of the query.
  unfoldable pub get_authorize :
      Cookies → Option String → Option String → Params → State → Reply × State
  get_authorize cookies (some pending_id) request_uri params s =
      (plain (to_login pending_id false false), s)
  get_authorize cookies none (some request_uri) params s =
      take_pushed cookies request_uri (text_of params.client_id) s
  get_authorize cookies none none params s = begin cookies (validated params false s)

  abbrev pub page_code : PageError → String
  page_code unrecognised_application = "invalid_client"
  page_code unrecognised_redirect = "invalid_request"

  abbrev pub push : Params → Validated × State → Reply × State
  push params (on_page error, s) = (plain (par_refused (page_code error)), s)
  push params (sent_back uri state error description, s) = (plain (par_refused error), s)
  push params (accepted pending start_with_sign_up, s) =
      let (id, rows) =
        store_pushed_request now draws.pushed_id pending.client_id (w.stringify params) s.pushed in
      (plain (par_created (request_uri_prefix then_text id) 60), record s { pushed = rows })

  -- POST /par
  unfoldable pub post_par : Params → State → Reply × State
  post_par params s = push params (validated params true s)

  abbrev pub login_shown : Bool → Step → Response
  login_shown signup (stop response) = response
  login_shown signup (go pending binding) =
      login_page pending.id (csrf_for w pending binding) signup none

  -- GET /login
  unfoldable pub get_login : Cookies → Option String → Bool → State → Reply × State
  get_login cookies id signup s = (plain (login_shown signup (load_step w now cookies id s)), s)

  -- A fresh session for whoever has signed in; the browser's old one is revoked.
  abbrev pub sign_in : Cookies → PendingAuthorization → String → State → Reply × State
  sign_in cookies pending account_id s =
      let rows = revoke_as_session w.env now cookies.session s.sessions in
      let (token, rows') = start_as_session w.env now draws.session account_id "pwd" rows in
      (
        record {
          response = to_consent pending.id;
          binding_cookie = kept;
          session_cookie = set token;
        },
        record s { sessions = rows' },
      )

  abbrev pub failure_message : Failure → String
  failure_message (app e) = e.message
  failure_message unique_violation = "Could not create that account."
  failure_message (other_error _) = "Could not create that account."

  abbrev pub after_sign_up :
      Cookies
      → PendingAuthorization
      → Text
      → Result Account × List AccountRow
      → State
      → Reply × State
  after_sign_up cookies pending binding (ok account, rows) s =
      sign_in cookies pending account.id (record s { accounts = rows })
  after_sign_up cookies pending binding (err e, rows) s = (
    plain (login_page pending.id (csrf_for w pending binding) true (some (failure_message e))),
    record s { accounts = rows },
  )

  abbrev pub after_check :
      Cookies → PendingAuthorization → Text → Option Account → State → Reply × State
  after_check cookies pending binding none s = (
    plain (
        login_page pending.id (csrf_for w pending binding) false
          (some "Invalid username or password.")),
    s,
  )
  after_check cookies pending binding (some account) s = sign_in cookies pending account.id s

  abbrev pub or_empty : Option Text → Text
  or_empty none = []
  or_empty (some t) = t

  abbrev pub login_step : Cookies → Form → Step → State → Reply × State
  login_step cookies form (stop response) s = (plain response, s)
  login_step cookies form (go pending binding) s =
      let username = some (or_empty form.username) in
      let password = some (or_empty form.password) in
      if not (mac_matches (csrf_for w pending binding) form.csrf)
      then (plain form_expired, s)
      else (if form.signup
          then after_sign_up cookies pending binding
              (create_account w.unicode w.passwords now draws.account_id draws.salt username
                password s.accounts)
              s
          else after_check cookies pending binding
              (verify_credentials w.unicode w.passwords username password s.accounts) s)

  -- POST /login
  unfoldable pub post_login : Cookies → Form → State → Reply × State
  post_login cookies form s = login_step cookies form (load_step w now cookies form.pending s) s
