-- ===== src/Oauth/Authorize/Consent.antt =====
-- server/src/oauth/authorize.ts: the routes of consent, denial and sign-out, and all the routes as
-- one server.
use mcp_ui.Common.{ℕ, String, Bool, true, false, not, Option, none, some, List, if◌then◌else◌}
use mcp_ui.Normalize.{Text}
use mcp_ui.Exec.{Result, ok, err}
use mcp_ui.Accounts.{Account, get_account}
use mcp_ui.Oauth.Types.{PendingAuthorization}
use mcp_ui.Oauth.Codes.{delete_pending_authorization}
use mcp_ui.Oauth.Session.{AsSession, revoke_as_session}
use mcp_ui.Oauth.Consents.{ConsentRow, find_remembered_consent, record_consent}
use mcp_ui.Oauth.Authorize.Request.{Params}
use mcp_ui.Oauth.Authorize.Steps.{
  World, State, FlowDraws, Cookies, Form, error_to, to_login, consent_page, failed, kept, cleared,
  Reply, plain, recent_enough, csrf_for, mac_matches, Step, go, stop, load_step, current_session,
  complete, form_expired,
}
use mcp_ui.Oauth.Authorize.Routes.{get_authorize, post_par, get_login, post_login}

module _ (w : World) (now : ℕ) (draws : FlowDraws) where
  abbrev pub account_for : Option AsSession → State → Option Account
  account_for none s = none
  account_for (some session) s = get_account session.account_id s.accounts

  abbrev pub remembered_or_page :
      PendingAuthorization
      → Text
      → AsSession
      → Account
      → Result (Option String)
      → State
      → Reply × State
  remembered_or_page pending binding session account (err e) s = (plain (failed e), s)
  remembered_or_page pending binding session account (ok (some id)) s =
      complete w now draws pending session (some id) s
  remembered_or_page pending binding session account (ok none) s =
      (plain (consent_page pending.id (csrf_for w pending binding) account.username), s)

  abbrev pub approve_or_ask :
      PendingAuthorization → Text → Option AsSession → Option Account → State → Reply × State
  approve_or_ask pending binding none account s = (plain (to_login pending.id false false), s)
  approve_or_ask pending binding (some session) none s =
      (plain (to_login pending.id false false), s)
  approve_or_ask pending binding (some session) (some account) s =
      if not (recent_enough pending session)
      then (plain (to_login pending.id true false), s)
      else (if pending.request.first_party
          then complete w now draws pending session none s
          else remembered_or_page pending binding session account
              (find_remembered_consent w.dir.web now session.account_id pending s.consents) s)

  abbrev pub consent_shown : Cookies → Step → State → Reply × State
  consent_shown cookies (stop response) s = (plain response, s)
  consent_shown cookies (go pending binding) s =
      let (session, s') = current_session w now cookies s in
      approve_or_ask pending binding session (account_for session s') s'

  -- GET /consent
  unfoldable pub get_consent : Cookies → Option String → State → Reply × State
  get_consent cookies id s = consent_shown cookies (load_step w now cookies id s) s

  abbrev pub complete_recorded :
      PendingAuthorization
      → AsSession
      → Result (Option String) × List ConsentRow
      → State
      → Reply × State
  complete_recorded pending session (err e, rows) s =
      (plain (failed e), record s { consents = rows })
  complete_recorded pending session (ok consent_id, rows) s =
      complete w now draws pending session consent_id (record s { consents = rows })

  abbrev pub approve : PendingAuthorization → Option AsSession → State → Reply × State
  approve pending none s = (plain (to_login pending.id false false), s)
  approve pending (some session) s =
      if not (recent_enough pending session)
      then (plain (to_login pending.id true false), s)
      else complete_recorded pending session
          (record_consent w.dir.web now draws.consent_id session.account_id pending s.consents) s

  abbrev pub consent_given : Cookies → Form → Step → State → Reply × State
  consent_given cookies form (stop response) s = (plain response, s)
  consent_given cookies form (go pending binding) s =
      if not (mac_matches (csrf_for w pending binding) form.csrf)
      then (plain form_expired, s)
      else (let (session, s') = current_session w now cookies s in approve pending session s')

  -- POST /consent
  unfoldable pub post_consent : Cookies → Form → State → Reply × State
  post_consent cookies form s =
      consent_given cookies form (load_step w now cookies form.pending s) s

  abbrev pub denied : Form → Step → State → Reply × State
  denied form (stop response) s = (plain response, s)
  denied form (go pending binding) s =
      if not (mac_matches (csrf_for w pending binding) form.csrf)
      then (plain form_expired, s)
      else (
        plain (
            error_to pending.request.redirect_uri pending.request.state "access_denied"
              "The person declined to authorize this application."),
        record s { tables = delete_pending_authorization pending.id s.tables },
      )

  -- `deny`, of POST /consent/deny and POST /authorize/cancel.
  unfoldable pub deny : Cookies → Form → State → Reply × State
  deny cookies form s = denied form (load_step w now cookies form.pending s) s

  abbrev pub signed_out : Cookies → Form → Step → State → Reply × State
  signed_out cookies form (stop response) s = (plain response, s)
  signed_out cookies form (go pending binding) s =
      if not (mac_matches (csrf_for w pending binding) form.csrf)
      then (plain form_expired, s)
      else (
        record {
          response = to_login pending.id false false;
          binding_cookie = kept;
          session_cookie = cleared;
        },
        record s { sessions = revoke_as_session w.env now cookies.session s.sessions },
      )

  -- POST /logout
  unfoldable pub post_logout : Cookies → Form → State → Reply × State
  post_logout cookies form s = signed_out cookies form (load_step w now cookies form.pending s) s

-- A request to the endpoint.
pub data Call : Type 0 where
  authorize_call : Option String → Option String → Params → Call
  par_call : Params → Call
  login_call : Option String → Bool → Call
  sign_in_call : Form → Call
  consent_call : Option String → Call
  approve_call : Form → Call
  deny_call : Form → Call
  logout_call : Form → Call

-- `authorizeRoutes`
unfoldable pub serve : World → ℕ → FlowDraws → Cookies → Call → State → Reply × State
serve w now draws cookies (authorize_call pending request_uri params) s =
    get_authorize w now draws cookies pending request_uri params s
serve w now draws cookies (par_call params) s = post_par w now draws params s
serve w now draws cookies (login_call id signup) s = get_login w now draws cookies id signup s
serve w now draws cookies (sign_in_call form) s = post_login w now draws cookies form s
serve w now draws cookies (consent_call id) s = get_consent w now draws cookies id s
serve w now draws cookies (approve_call form) s = post_consent w now draws cookies form s
serve w now draws cookies (deny_call form) s = deny w now draws cookies form s
serve w now draws cookies (logout_call form) s = post_logout w now draws cookies form s
