-- ===== src/Oauth/Clients/Resolve/Trust.antt =====
-- server/src/oauth/clients.ts: which clients are shown as verified, and where a registered client
-- may be redirected to.
use mcp_ui.Common.{
  ℕ, String, true, ◌≡◌, refl, sym, ap, ◌∙◌, ◌⊎◌, inl, inr, some, List, [], ◌∷◌, ◌==◌, string_eq,
  arith, Bool-cases, Memᴰ, subst,
}
use mcp_ui.Common.Rows.{any, All}
use mcp_ui.Common.Rows.Laws.{All-at}
use mcp_ui.Oauth.Types.{ClientKind, verified}
use mcp_ui.Oauth.Clients.Urls.{Url, is_registerable_redirect_uri, redirect_uri_allowed}
use mcp_ui.Oauth.Clients.Redirects.{IsSafe, redirect_uri_allowed-IsSafe}
use mcp_ui.Oauth.Clients.Registration.{ClientRow, ClientSource, ApplicationType, uri_accepted}
use mcp_ui.Oauth.Clients.Registration.Valid.{RowIsValid, IsValid}
use mcp_ui.Oauth.Clients.Resolve.{
  ResolvedClient, Directory, ClientTables, trust_of, trust_of_source, kind_of, resolve_client,
}
use mcp_ui.Oauth.Clients.Resolve.Sound.{
  Grounds, our_app, by_document, by_row, resolve_client-Grounds,
}

-- Why a client may be called verified.
abbrev pub Vouched : Directory → String → ClientTables → Type 0
Vouched dir client_id t =
    (client_id ≡ dir.first_party_client_id)
    ⊎ (any (λ known. known == client_id) dir.known_clients ≡ true)
    ⊎ ((row : ClientRow) × Memᴰ row t.clients
        × (row.client_id ≡ client_id)
        × (row.source ≡ ClientSource.preregistered))

some_inj : {A : Type 0} {a b : A} → some a ≡ some b → a ≡ b
some_inj e = cc

trust_of-verified :
    (dir : Directory) (client_id : String)
    → trust_of dir client_id ≡ verified
    → any (λ known. known == client_id) dir.known_clients ≡ true
trust_of-verified dir client_id e =
    elim (Bool-cases (any (λ known. known == client_id) dir.known_clients)) [
      | inl known ↦ known
      | inr stranger ↦ absurd (ground arith)
    ]

source-verified : (s : ClientSource) → trust_of_source s ≡ verified → s ≡ ClientSource.preregistered
source-verified ClientSource.preregistered e = refl
source-verified ClientSource.dcr e = absurd cc

source-dcr : (s : ClientSource) → kind_of s ≡ ClientKind.dcr → s ≡ ClientSource.dcr
source-dcr ClientSource.dcr e = refl
source-dcr ClientSource.preregistered e = absurd cc

module _ (dir : Directory) (now : ℕ) (client_id : String) (t : ClientTables) where
  Grounds-Vouched :
      {c : ResolvedClient}
      → Grounds dir client_id t c
      → c.trust ≡ verified
      → Vouched dir client_id t
  Grounds-Vouched (our_app ours _) v = inl ours
  Grounds-Vouched (by_document uris host digest same) v =
      inr (inl (trust_of-verified dir client_id (sym (ap (λ c. c.trust) same) ∙ v)))
  Grounds-Vouched (by_row row m same made) v =
      inr (inr (row, m, same, source-verified row.source (ap (λ c. c.trust) (some_inj made) ∙ v)))

  -- A client is resolved as verified only if it is our own app, if its id is on the list of known
  -- clients, or if its row in the table is a preregistered one.
  pub resolve_client-Vouched :
      {c : ResolvedClient}
      → (resolve_client dir now (some client_id) t).0 ≡ some c
      → c.trust ≡ verified
      → Vouched dir client_id t
  resolve_client-Vouched e v = Grounds-Vouched (resolve_client-Grounds dir now client_id t e) v

  row-registerable :
      (row : ClientRow)
      → RowIsValid dir.web row
      → row.source ≡ ClientSource.dcr
      → All (λ uri. is_registerable_redirect_uri dir.web uri ≡ true) row.redirect_uris
  row-registerable row valid self =
      let (kind, _, fine) = valid self in weaken kind row.redirect_uris fine
    where
      weaken :
          (kind : ApplicationType) (uris : List String)
          → All (λ uri. uri_accepted dir.web kind uri ≡ true) uris
          → All (λ uri. is_registerable_redirect_uri dir.web uri ≡ true) uris
      weaken kind [] h = tt
      weaken kind (uri ∷ uris) h = (ground (arith, h.0), weaken kind uris h.1)

  -- The redirect URIs of a client that registered itself could all be registered.
  pub Grounds-registerable :
      {c : ResolvedClient}
      → IsValid dir.web t.clients
      → Grounds dir client_id t c
      → c.kind ≡ ClientKind.dcr
      → All (λ uri. is_registerable_redirect_uri dir.web uri ≡ true) c.redirect_uris
  Grounds-registerable h (our_app _ same) k = absurd (apart (sym (ap (λ c. c.kind) same) ∙ k))
    where
      apart : ¬ (ClientKind.preregistered ≡ ClientKind.dcr)
      apart e = cc
  Grounds-registerable h (by_document uris host digest same) k =
      absurd (apart (sym (ap (λ c. c.kind) same) ∙ k))
    where
      apart : ¬ (ClientKind.cimd ≡ ClientKind.dcr)
      apart e = cc
  Grounds-registerable h (by_row row m same made) k =
      let fields = some_inj made in
      subst (All (λ uri. is_registerable_redirect_uri dir.web uri ≡ true))
        (ap (λ c. c.redirect_uris) fields)
        (row-registerable row (All-at (RowIsValid dir.web) t.clients h.each m)
          (source-dcr row.source (ap (λ c. c.kind) fields ∙ k)))

  -- While the table of clients is valid, a client that registered itself may be redirected only to
  -- a URL without a fragment that goes over https, to this machine over http, or to an app under a
  -- reverse-DNS scheme.
  pub registered_redirect-IsSafe :
      {c : ResolvedClient} (redirect_uri : String)
      → IsValid dir.web t.clients
      → (resolve_client dir now (some client_id) t).0 ≡ some c
      → c.kind ≡ ClientKind.dcr
      → redirect_uri_allowed dir.web redirect_uri c.redirect_uris ≡ true
      → (url : Url) × (dir.web.parse_url redirect_uri ≡ some url)
        × (url.hash ≡ "")
        × IsSafe dir.web url
  registered_redirect-IsSafe {c} redirect_uri h e k allowed =
      redirect_uri_allowed-IsSafe dir.web redirect_uri c.redirect_uris
        (Grounds-registerable h (resolve_client-Grounds dir now client_id t e) k) allowed
