-- ===== src/Oauth/Authorize/Issued/Skipped.antt =====
-- server/src/oauth/authorize.ts: when GET /consent answers with a code.
use mcp_ui.Common.{
  ℕ, ◌≡◌, refl, sym, ◌∙◌, String, Bool, true, false, inl, inr, Option, none, some, string_eq,
  Bool-cases, if◌then◌else◌,
}
use mcp_ui.Normalize.{Text}
use mcp_ui.Exec.{Result, ok, err}
use mcp_ui.Accounts.{Account}
use mcp_ui.Oauth.Types.{PendingAuthorization}
use mcp_ui.Oauth.Session.{AsSession, read_as_session}
use mcp_ui.Oauth.Consents.{find_remembered_consent}
use mcp_ui.Oauth.Authorize.Steps.{
  World, State, FlowDraws, Cookies, code_to, recent_enough, Step, go, stop, read_pending, load_step,
  current_session, complete,
}
use mcp_ui.Oauth.Authorize.Consent.{remembered_or_page, approve_or_ask, consent_shown, get_consent}
use mcp_ui.Oauth.Authorize.Issued.{
  Ready, load_step-Loaded, stopped, complete-to, Agreed, page-no_code, login-no_code,
}

module _ (w : World) (now : ℕ) (draws : FlowDraws) (cookies : Cookies) where
  remembered-Agreed :
      (pending : PendingAuthorization) (binding : Text) (session : AsSession) (account : Account)
      (o : Result (Option String)) (s : State) {uri : String} {code : Text} {state : Option String}
      → find_remembered_consent w.dir.web now session.account_id pending s.consents ≡ o
      → (remembered_or_page w now draws pending binding session account o s).0.response
        ≡ code_to uri code state
      → Agreed w now draws cookies pending session s × (uri ≡ pending.request.redirect_uri)
  remembered-Agreed pending binding session account (err f) s found e = absurd cc
  remembered-Agreed pending binding session account (ok none) s found e = absurd cc
  remembered-Agreed pending binding session account (ok (some id)) s found e =
      (inr (id, found), complete-to w now draws cookies pending session (some id) s e)

  trusted-Agreed :
      (pending : PendingAuthorization) (binding : Text) (session : AsSession) (account : Account)
      (ours : Bool) (s : State) {uri : String} {code : Text} {state : Option String}
      → pending.request.first_party ≡ ours
      → (if ours
          then complete w now draws pending session none s
          else remembered_or_page w now draws pending binding session account
              (find_remembered_consent w.dir.web now session.account_id pending s.consents)
              s).0.response
        ≡ code_to uri code state
      → Agreed w now draws cookies pending session s × (uri ≡ pending.request.redirect_uri)
  trusted-Agreed pending binding session account true s first e =
      (inl first, complete-to w now draws cookies pending session none s e)
  trusted-Agreed pending binding session account false s first e =
      remembered-Agreed pending binding session account
        (find_remembered_consent w.dir.web now session.account_id pending s.consents) s refl e

  approve_or_ask-Agreed :
      (pending : PendingAuthorization) (binding : Text) (o : Option AsSession) (a : Option Account)
      (s : State) {uri : String} {code : Text} {state : Option String}
      → (approve_or_ask w now draws pending binding o a s).0.response ≡ code_to uri code state
      → (session : AsSession) × (o ≡ some session)
        × (recent_enough pending session ≡ true)
        × Agreed w now draws cookies pending session s
        × (uri ≡ pending.request.redirect_uri)
  approve_or_ask-Agreed pending binding none a s e = absurd cc
  approve_or_ask-Agreed pending binding (some session) none s e = absurd cc
  approve_or_ask-Agreed pending binding (some session) (some account) s e =
      elim (Bool-cases (recent_enough pending session)) [
        | inr old ↦ absurd (login-no_code (rw old at e))
        | inl recent ↦
            let (agreed, there) =
              trusted-Agreed pending binding session account pending.request.first_party s refl
                (rw recent at e) in
            (session, refl, recent, agreed, there)
      ]

  consent_shown-Ready :
      (id : Option String) (step : Step) (s : State) {uri : String} {code : Text}
      {state : Option String}
      → load_step w now cookies id s ≡ step
      → (consent_shown w now draws cookies step s).0.response ≡ code_to uri code state
      → (pending : PendingAuthorization) × (session : AsSession) × Ready w now draws cookies id s
          pending session
        × Agreed w now draws cookies pending session s
        × (uri ≡ pending.request.redirect_uri)
  unfolding current_session load_step
  consent_shown-Ready id (stop r) s loaded e =
      let (n, title, page) =
        stopped w now draws cookies (read_pending now id s.tables) cookies.binding loaded in
      absurd (page-no_code (sym page ∙ e))
  consent_shown-Ready id (go pending binding) s loaded e =
      let l = load_step-Loaded w now draws cookies id s loaded in
      let (session, found, recent, agreed, there) =
        approve_or_ask-Agreed pending binding
          (read_as_session w.env now cookies.session s.sessions).0 _ _ e in
      (
        pending,
        session,
        record {
          binding = binding;
          cookie = l.cookie;
          in_flight = l.in_flight;
          belongs = l.belongs;
          signed_in = found;
          recent = recent;
        },
        agreed,
        there,
      )

  -- GET /consent answers with a code only to the browser that the authorization was begun in, where
  -- it is signed in, and recently if more than reading is asked for; and without asking only for
  -- our own app or on a remembered approval. The code goes to the redirect URI of the authorization.
  pub get_consent-Ready :
      (id : Option String) (s : State) {uri : String} {code : Text} {state : Option String}
      → (get_consent w now draws cookies id s).0.response ≡ code_to uri code state
      → (pending : PendingAuthorization) × (session : AsSession) × Ready w now draws cookies id s
          pending session
        × Agreed w now draws cookies pending session s
        × (uri ≡ pending.request.redirect_uri)
  unfolding get_consent
  get_consent-Ready id s e = consent_shown-Ready id (load_step w now cookies id s) s refl e
