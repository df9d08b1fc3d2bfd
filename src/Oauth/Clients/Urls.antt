-- ===== src/Oauth/Clients/Urls.antt =====
-- server/src/oauth/clients.ts: redirect URIs. The parser of URLs is the platform's, and so are the
-- UTF-16 code units of a string and its lower case.
use mcp_ui.Common.{
  ℕ, String, Bool, true, false, ◌&&◌, ◌||◌, not, Option, none, some, List, [], ◌∷◌, leb, ltb, ◌==◌,
  nat_eq, string_eq, list_eq, if◌then◌else◌,
}
use mcp_ui.Common.Rows.{any}
use mcp_ui.Normalize.{Text}
use mcp_ui.Tokens.{length}

-- The parts of a `URL` that the code reads.
pub record Url : Type 0 where
  pub protocol : String
  pub hostname : String
  pub host : String
  pub pathname : String
  pub hash : String

pub record Web : Type 0 where
  -- `new URL(text)`; none where it throws
  pub parse_url : String → Option Url
  pub units : String → Text
  pub to_lower_case : String → String

-- `/[a-z]/i`
abbrev pub is_letter : ℕ → Bool
is_letter c = (leb 97 c && leb c 122) || (leb 65 c && leb c 90)

abbrev pub is_digit : ℕ → Bool
is_digit c = leb 48 c && leb c 57

-- `/[a-z0-9+.-]/i`
abbrev pub is_scheme_unit : ℕ → Bool
is_scheme_unit c = is_letter c || is_digit c || c == 43 || c == 46 || c == 45

-- `[a-z0-9+.-]+:$`
unfoldable pub ends_scheme : Text → Bool
ends_scheme [] = false
ends_scheme (c ∷ s) = let rest = ends_scheme s in is_scheme_unit c && (s == (58 ∷ []) || rest)

-- `[a-z0-9+.-]*\.[a-z0-9+.-]+:$`
unfoldable pub dotted : Text → Bool
dotted [] = false
dotted (c ∷ s) = let rest = dotted s in (c == 46 && ends_scheme s) || (is_scheme_unit c && rest)

-- `/^[a-z][a-z0-9+.-]*\.[a-z0-9+.-]+:$/i`
unfoldable pub is_reverse_dns : Text → Bool
is_reverse_dns [] = false
is_reverse_dns (c ∷ s) = is_letter c && dotted s

-- `isLoopback`
unfoldable pub is_loopback : Web → Url → Bool
is_loopback web url =
    let host = web.to_lower_case url.hostname in
    host == "127.0.0.1" || host == "[::1]" || host == "::1" || host == "localhost"

abbrev pub forbidden_schemes : List String
forbidden_schemes =
    "javascript:" ∷ "data:" ∷ "vbscript:" ∷ "file:" ∷ "blob:" ∷ "about:" ∷ "filesystem:" ∷ []

-- Which schemes a redirect URI may have: https, http to this machine, or a reverse-DNS name.
unfoldable pub scheme_allowed : Web → Url → Bool
scheme_allowed web url =
    if url.protocol == "https:"
    then true
    else (if url.protocol == "http:"
        then is_loopback web url
        else is_reverse_dns (web.units url.protocol))

abbrev pub registerable_url : Web → Option Url → Bool
registerable_url web none = false
registerable_url web (some url) =
    if not (url.hash == "")
    then false
    else (if any (λ s. s == web.to_lower_case url.protocol) forbidden_schemes
        then false
        else scheme_allowed web url)

-- `isRegisterableRedirectUri`
unfoldable pub is_registerable_redirect_uri : Web → String → Bool
is_registerable_redirect_uri web uri =
    if length (web.units uri) == 0 || ltb 2048 (length (web.units uri))
    then false
    else registerable_url web (web.parse_url uri)

-- The two URLs of a redirect to this machine, where the port is ignored.
unfoldable pub same_but_port : Web → Url → Url → Bool
same_but_port web candidate known =
    if not (is_loopback web candidate) || not (is_loopback web known)
    then false
    else candidate.protocol == known.protocol && candidate.pathname == known.pathname

abbrev entry_parsed : Web → Url → Option Url → Bool
entry_parsed web candidate none = false
entry_parsed web candidate (some known) = same_but_port web candidate known

-- The test of one entry of the client's redirect URIs.
unfoldable pub allows : Web → String → Url → String → Bool
allows web requested candidate entry =
    if entry == requested then true else entry_parsed web candidate (web.parse_url entry)

abbrev candidate_allowed : Web → String → List String → Option Url → Bool
candidate_allowed web requested allowed none = false
candidate_allowed web requested allowed (some candidate) =
    if not (candidate.hash == "") then false else any (allows web requested candidate) allowed

-- `redirectUriAllowed`
unfoldable pub redirect_uri_allowed : Web → String → List String → Bool
redirect_uri_allowed web requested allowed =
    candidate_allowed web requested allowed (web.parse_url requested)

-- `redirectHost`, in consents.ts and where a client without a name of its own is shown.
abbrev pub host_or_protocol : Url → String
host_or_protocol url = if url.host == "" then url.protocol else url.host
