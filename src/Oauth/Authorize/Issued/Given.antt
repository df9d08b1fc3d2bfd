-- ===== src/Oauth/Authorize/Issued/Given.antt =====
-- server/src/oauth/authorize.ts: when POST /consent answers with a code.
use mcp_ui.Common.{
  ℕ, ◌≡◌, refl, sym, ap, ◌∙◌, String, true, inl, inr, Option, none, some, List, string_eq, text_eq,
  Bool-cases,
}
use mcp_ui.Normalize.{Text}
use mcp_ui.Exec.{Result, ok, err}
use mcp_ui.Oauth.Types.{PendingAuthorization}
use mcp_ui.Oauth.Session.{AsSession, read_as_session}
use mcp_ui.Oauth.Consents.{ConsentRow, record_consent}
use mcp_ui.Oauth.Authorize.Steps.{
  World, State, FlowDraws, Cookies, Form, code_to, recent_enough, csrf_for, mac_matches, Step, go,
  stop, read_pending, load_step, current_session,
}
use mcp_ui.Oauth.Authorize.Consent.{complete_recorded, approve, consent_given, post_consent}
use mcp_ui.Oauth.Authorize.Issued.{
  Ready, load_step-Loaded, stopped, complete-to, page-no_code, login-no_code,
}

module _ (w : World) (now : ℕ) (draws : FlowDraws) (cookies : Cookies) where
  recorded-to :
      (pending : PendingAuthorization) (session : AsSession)
      (r : Result (Option String) × List ConsentRow) (s : State) {uri : String} {code : Text}
      {state : Option String}
      → (complete_recorded w now draws pending session r s).0.response ≡ code_to uri code state
      → uri ≡ pending.request.redirect_uri
  recorded-to pending session (err f, rows) s e = absurd cc
  recorded-to pending session (ok id, rows) s e =
      complete-to w now draws cookies pending session id (record s { consents = rows }) e

  approve-to :
      (pending : PendingAuthorization) (o : Option AsSession) (s : State) {uri : String}
      {code : Text} {state : Option String}
      → (approve w now draws pending o s).0.response ≡ code_to uri code state
      → (session : AsSession) × (o ≡ some session)
        × (recent_enough pending session ≡ true)
        × (uri ≡ pending.request.redirect_uri)
  approve-to pending none s e = absurd cc
  approve-to pending (some session) s e = elim (Bool-cases (recent_enough pending session)) [
    | inr old ↦ absurd (login-no_code (rw old at e))
    | inl recent ↦ (
      session,
      refl,
      recent,
      recorded-to pending session
          (record_consent w.dir.web now draws.consent_id session.account_id pending s.consents) s
          (rw recent at e),
    )
  ]

  matched :
      (expected : String) (o : Option String) → mac_matches expected o ≡ true → o ≡ some expected
  unfolding mac_matches
  matched expected none e = absurd cc
  matched expected (some presented) e = ap some (sym ((text_eq expected presented).0 e))

  given-Ready :
      (form : Form) (step : Step) (s : State) {uri : String} {code : Text} {state : Option String}
      → load_step w now cookies form.pending s ≡ step
      → (consent_given w now draws cookies form step s).0.response ≡ code_to uri code state
      → (pending : PendingAuthorization) × (session : AsSession) × (r : Ready w now draws cookies
          form.pending s pending session)
        × (form.csrf ≡ some (csrf_for w pending r.binding))
        × (uri ≡ pending.request.redirect_uri)
  unfolding current_session load_step
  given-Ready form (stop r) s loaded e =
      let (n, title, page) =
        stopped w now draws cookies (read_pending now form.pending s.tables) cookies.binding
          loaded in
      absurd (page-no_code (sym page ∙ e))
  given-Ready form (go pending binding) s loaded e =
      let l = load_step-Loaded w now draws cookies form.pending s loaded in
      elim (Bool-cases (mac_matches (csrf_for w pending binding) form.csrf)) [
        | inr bad ↦ absurd (page-no_code (rw bad at e))
        | inl same ↦
            let (session, found, recent, there) =
              approve-to pending (read_as_session w.env now cookies.session s.sessions).0 _
                (rw same at e) in
            (
              pending,
              session,
              record {
                binding = binding;
                cookie = l.cookie;
                in_flight = l.in_flight;
                belongs = l.belongs;
                signed_in = found;
                recent = recent;
              },
              matched (csrf_for w pending binding) form.csrf same,
              there,
            )
      ]

  -- POST /consent answers with a code only to the browser that the authorization was begun in, where
  -- it is signed in, and recently if more than reading is asked for, and where the form carries that
  -- authorization's token. The code goes to the redirect URI of the authorization.
  pub post_consent-Ready :
      (form : Form) (s : State) {uri : String} {code : Text} {state : Option String}
      → (post_consent w now draws cookies form s).0.response ≡ code_to uri code state
      → (pending : PendingAuthorization) × (session : AsSession) × (r : Ready w now draws cookies
          form.pending s pending session)
        × (form.csrf ≡ some (csrf_for w pending r.binding))
        × (uri ≡ pending.request.redirect_uri)
  unfolding post_consent
  post_consent-Ready form s e = given-Ready form (load_step w now cookies form.pending s) s refl e
