-- ===== src/Oauth/Authorize/Issued.antt =====
-- server/src/oauth/authorize.ts: when the endpoint answers with an authorization code.
pub mod Skipped
pub mod Given
pub mod Granted
use mcp_ui.Common.{
  ℕ, ◌≡◌, refl, sym, ap, ◌∙◌, String, Bool, true, false, not, inl, inr, Option, none, some, List,
  ◌==◌, string_eq, text_eq, ◌⊎◌, arith, Bool-cases, Option-cases, subst, if◌then◌else◌,
}
use mcp_ui.Normalize.{Text}
use mcp_ui.Exec.{Result, ok, err}
use mcp_ui.Accounts.{Account}
use mcp_ui.Oauth.Types.{PendingAuthorization}
use mcp_ui.Oauth.Codes.{pending_belongs_to}
use mcp_ui.Oauth.Session.{AsSession, read_as_session}
use mcp_ui.Oauth.Consents.{ConsentRow, find_remembered_consent, record_consent}
use mcp_ui.Oauth.Authorize.Steps.{
  World, State, FlowDraws, Cookies, Form, Response, error_page, code_to, Reply, recent_enough,
  csrf_for, mac_matches, Step, go, stop, step_for, read_pending, load_step, current_session,
  code_answer, complete,
}
use mcp_ui.Oauth.Authorize.Consent.{
  account_for, remembered_or_page, approve_or_ask, consent_shown, get_consent, complete_recorded,
  approve, consent_given, post_consent,
}

module _ (w : World) (now : ℕ) (draws : FlowDraws) (cookies : Cookies) where
  -- What an answer with a code presupposes of the browser: it is the one that the authorization was
  -- begun in, and it is signed in, recently if more than reading is asked for.
  pub record Ready (id : Option String) (s : State) (pending : PendingAuthorization)
      (session : AsSession) : Type 0 where
    pub binding : Text
    pub cookie : cookies.binding ≡ some binding
    pub in_flight : read_pending now id s.tables ≡ some pending
    pub belongs : pending_belongs_to w.env pending cookies.binding ≡ true
    pub signed_in : (read_as_session w.env now cookies.session s.sessions).0 ≡ some session
    pub recent : recent_enough pending session ≡ true

  -- The authorization that a step found.
  pub record Loaded (id : Option String) (s : State) (pending : PendingAuthorization)
      (binding : Text) : Type 0 where
    pub cookie : cookies.binding ≡ some binding
    pub in_flight : read_pending now id s.tables ≡ some pending
    pub belongs : pending_belongs_to w.env pending cookies.binding ≡ true

  go_inj : {p q : PendingAuthorization} {b c : Text} → go p b ≡ go q c → (p ≡ q) × (b ≡ c)
  go_inj e = (cc, cc)

  step_for-Loaded :
      (cookie : Option Text) (o : Option PendingAuthorization) {pending : PendingAuthorization}
      {binding : Text}
      → step_for w cookie o ≡ go pending binding
      → (cookie ≡ some binding)
        × (o ≡ some pending)
        × (pending_belongs_to w.env pending cookie ≡ true)
  step_for-Loaded none none e = absurd cc
  step_for-Loaded (some b) none e = absurd cc
  step_for-Loaded none (some p) e = absurd cc
  step_for-Loaded (some b) (some p) e = elim (Bool-cases (pending_belongs_to w.env p (some b))) [
    | inr bad ↦ absurd (ground arith)
    | inl mine ↦
        let (same, cookie_same) = go_inj (rw mine at e) in
        (
          ap some cookie_same,
          ap some same,
          subst (λ q. pending_belongs_to w.env q (some b) ≡ true) same mine,
        )
  ]

  pub load_step-Loaded :
      (id : Option String) (s : State) {pending : PendingAuthorization} {binding : Text}
      → load_step w now cookies id s ≡ go pending binding
      → Loaded id s pending binding
  unfolding load_step
  load_step-Loaded id s e =
      let (cookie, found, mine) =
        step_for-Loaded cookies.binding (read_pending now id s.tables) e in
      record { cookie = cookie; in_flight = found; belongs = mine }

  stop_inj : {r q : Response} → stop r ≡ stop q → r ≡ q
  stop_inj e = cc

  pub stopped :
      (o : Option PendingAuthorization) (cookie : Option Text) {r : Response}
      → step_for w cookie o ≡ stop r
      → (n : ℕ) × (title : String) × (r ≡ error_page n title)
  stopped none none e = (400, "This sign-in link has expired", sym (stop_inj e))
  stopped none (some b) e = (400, "This sign-in link has expired", sym (stop_inj e))
  stopped (some p) none e = (400, "Open this in the browser you started from", sym (stop_inj e))
  stopped (some p) (some b) e = elim (Bool-cases (pending_belongs_to w.env p (some b))) [
    | inl mine ↦ absurd (ground arith)
    | inr bad ↦ (400, "Open this in the browser you started from", sym (stop_inj (rw bad at e)))
  ]

  -- `complete` sends a code to the redirect URI of the authorization only.
  code_answer-to :
      (pending : PendingAuthorization) (o : Option Text) {uri : String} {code : Text}
      {state : Option String}
      → code_answer pending o ≡ code_to uri code state
      → uri ≡ pending.request.redirect_uri
  code_answer-to pending none e = absurd cc
  code_answer-to pending (some c) e = cc

  pub complete-to :
      (pending : PendingAuthorization) (session : AsSession) (consent : Option String) (s : State)
      {uri : String} {code : Text} {state : Option String}
      → (complete w now draws pending session consent s).0.response ≡ code_to uri code state
      → uri ≡ pending.request.redirect_uri
  unfolding complete
  complete-to pending session consent s e = code_answer-to pending _ e

  -- Why the screen was skipped.
  abbrev pub Agreed : PendingAuthorization → AsSession → State → Type 0
  Agreed pending session s =
      (pending.request.first_party ≡ true)
      ⊎ ((id : String) × (find_remembered_consent w.dir.web now session.account_id pending
              s.consents
            ≡ ok (some id)))

-- An error page and a step back to the sign-in are no codes.
pub page-no_code :
    {n : ℕ} {title uri : String} {code : Text} {state : Option String}
    → ¬ (error_page n title ≡ code_to uri code state)
page-no_code e = cc

pub login-no_code :
    {id uri : String} {code : Text} {state : Option String} {a b : Bool}
    → ¬ (Response.to_login id a b ≡ code_to uri code state)
login-no_code e = cc
