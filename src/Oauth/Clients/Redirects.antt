-- ===== src/Oauth/Clients/Redirects.antt =====
-- server/src/oauth/clients.ts: what the redirect URI rules let through.
use mcp_ui.Common.{
  String, true, ◌≡◌, inl, inr, some, List, [], ◌∷◌, ◌==◌, string_eq, text_eq, arith, Bool-cases,
  subst, Option-cases,
}
use mcp_ui.Common.Rows.{any, All}
use mcp_ui.Oauth.Clients.Urls.{
  Url, Web, is_loopback, is_reverse_dns, scheme_allowed, registerable_url,
  is_registerable_redirect_uri, same_but_port, allows, redirect_uri_allowed,
}

-- A place that a code may be sent to: over https, to this machine over http, or to an app under a
-- scheme in reverse-DNS form.
pub data IsSafe (web : Web) (url : Url) : Type 0 where
  over_https : url.protocol ≡ "https:" → IsSafe web url
  to_this_machine : url.protocol ≡ "http:" → is_loopback web url ≡ true → IsSafe web url
  to_an_app : is_reverse_dns (web.units url.protocol) ≡ true → IsSafe web url

scheme_allowed-IsSafe : (web : Web) (url : Url) → scheme_allowed web url ≡ true → IsSafe web url
unfolding scheme_allowed
scheme_allowed-IsSafe web url h = elim (Bool-cases (url.protocol == "https:")) [
  | inl e ↦ IsSafe.over_https ((text_eq _ _).0 e)
  | inr n ↦ elim (Bool-cases (url.protocol == "http:")) [
    | inl e ↦ IsSafe.to_this_machine ((text_eq _ _).0 e) (ground arith)
    | inr m ↦ IsSafe.to_an_app (ground arith)
  ]
]

registerable_url-IsSafe :
    (web : Web) (url : Url) → registerable_url web (some url) ≡ true → IsSafe web url
registerable_url-IsSafe web url h = scheme_allowed-IsSafe web url (ground arith)

pub registerable-IsSafe :
    (web : Web) (uri : String) {url : Url}
    → is_registerable_redirect_uri web uri ≡ true
    → web.parse_url uri ≡ some url
    → IsSafe web url
unfolding is_registerable_redirect_uri
registerable-IsSafe web uri {url} h e =
    registerable_url-IsSafe web url (subst (λ o. registerable_url web o ≡ true) e (ground arith))

pub registerable-parses :
    (web : Web) (uri : String)
    → is_registerable_redirect_uri web uri ≡ true
    → (url : Url) × (web.parse_url uri ≡ some url)
unfolding is_registerable_redirect_uri
registerable-parses web uri h = elim (Option-cases (web.parse_url uri)) [
  | inl e ↦ ground arith
  | inr found ↦ found
]

-- A redirect to this machine is as safe as the one that was registered for it.
same_but_port-IsSafe :
    (web : Web) (candidate known : Url)
    → same_but_port web candidate known ≡ true
    → IsSafe web known
    → IsSafe web candidate
unfolding same_but_port
same_but_port-IsSafe web candidate known h (IsSafe.over_https e) =
    IsSafe.over_https (ground (arith, text_eq candidate.protocol known.protocol))
same_but_port-IsSafe web candidate known h (IsSafe.to_this_machine e _) =
    IsSafe.to_this_machine (ground (arith, text_eq candidate.protocol known.protocol))
      (ground arith)
same_but_port-IsSafe web candidate known h (IsSafe.to_an_app e) =
    let same : candidate.protocol ≡ known.protocol =
      ground (arith, text_eq candidate.protocol known.protocol) in
    IsSafe.to_an_app (rw same e)

allowed-IsSafe :
    (web : Web) (requested : String) (url : Url) (entries : List String)
    → web.parse_url requested ≡ some url
    → any (allows web requested url) entries ≡ true
    → All (λ uri. is_registerable_redirect_uri web uri ≡ true) entries
    → IsSafe web url
unfolding any allows
allowed-IsSafe web requested url [] e h ok = ground arith
allowed-IsSafe web requested url (uri ∷ rest) e h ok = elim (Bool-cases (uri == requested)) [
  | inl same ↦
      let same_uri : uri ≡ requested = (text_eq uri requested).0 same in
      registerable-IsSafe web uri ok.0 (rw same_uri e)
  | inr other ↦
      let (known, parsed) = registerable-parses web uri ok.0 in
      elim (Bool-cases (same_but_port web url known)) [
        | inl port ↦
            same_but_port-IsSafe web url known port (registerable-IsSafe web uri ok.0 parsed)
        | inr differs ↦
            allowed-IsSafe web requested url rest e (rw (other, parsed, differs) at h) ok.1
      ]
]

-- Where every redirect URI of a client could be registered, what the client may be redirected to
-- is a URL without a fragment, and goes over https, to this machine over http, or to an app under a
-- reverse-DNS scheme.
pub redirect_uri_allowed-IsSafe :
    (web : Web) (requested : String) (allowed : List String)
    → All (λ uri. is_registerable_redirect_uri web uri ≡ true) allowed
    → redirect_uri_allowed web requested allowed ≡ true
    → (url : Url) × (web.parse_url requested ≡ some url) × (url.hash ≡ "") × IsSafe web url
unfolding redirect_uri_allowed
redirect_uri_allowed-IsSafe web requested allowed ok h =
    elim (Option-cases (web.parse_url requested)) [
      | inl e ↦ ground arith
      | inr (url, e) ↦ elim (Bool-cases (url.hash == "")) [
        | inl bare ↦ (
          url,
          e,
          (text_eq url.hash "").0 bare,
          allowed-IsSafe web requested url allowed e (rw (e, bare) at h) ok,
        )
        | inr fragment ↦ ground arith
      ]
    ]
