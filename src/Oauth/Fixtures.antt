-- ===== src/Oauth/Fixtures.antt =====
-- What the concrete runs of the authorization server share: its parameters, and the URLs that they
-- meet.
use mcp_ui.Common.{
  ℕ, String, false, none, some, Option, [], ◌∷◌, ◌==◌, nat_eq, string_eq, if◌then◌else◌,
}
use mcp_ui.Normalize.{Text}
use mcp_ui.Tokens.{TokenKind, mint, drop}
use mcp_ui.Oauth.Types.{Env}
use mcp_ui.Oauth.Clients.Urls.{Url, Web}

abbrev pub repeat : ℕ → Text
repeat c =
    c ∷ c ∷ c ∷ c ∷ c ∷ c ∷ c ∷ c ∷ c ∷ c ∷ c ∷ c ∷ c ∷ c ∷ c ∷ c ∷ c ∷ c ∷ c ∷ c ∷ c ∷ c ∷ c ∷ c
    ∷ c ∷ c ∷ c ∷ c ∷ c ∷ c ∷ c ∷ c ∷ c ∷ c ∷ c ∷ c ∷ c ∷ c ∷ c ∷ c ∷ c ∷ c ∷ c ∷ []

-- The stored form is read off the first unit of a token's body.
abbrev pub tag : Text → String
tag (c ∷ _) = if c == 65 then "A" else (if c == 66 then "B" else (if c == 67 then "C" else "D"))
tag [] = ""

abbrev pub env : Env
env = record {
  crc32 = λ _. 0;
  hmac = λ key token. tag (drop 9 token);
  sha256_base64url = λ s. s;
  peppers = record { current = "p"; previous = [] };
  resource_uri = "mcp";
  api_resource = "api";
  native_access_token_ttl_seconds = 600;
  refresh_grace_seconds = 30;
  refresh_requires_offline_access = false;
}

abbrev pub token_of : TokenKind → ℕ → Text
token_of kind c = mint (λ _. 0) kind (repeat c)

abbrev pub https_url : Url
https_url = record {
  protocol = "https:";
  hostname = "app.example";
  host = "app.example";
  pathname = "/cb";
  hash = "";
}

abbrev pub loopback_url : String → Url
loopback_url host = record {
  protocol = "http:";
  hostname = "127.0.0.1";
  host = host;
  pathname = "/cb";
  hash = "";
}

abbrev pub document_url : Url
document_url = record {
  protocol = "https:";
  hostname = "docs.example";
  host = "docs.example";
  pathname = "/client.json";
  hash = "";
}

abbrev pub script_url : Url
script_url = record {
  protocol = "javascript:";
  hostname = "";
  host = "";
  pathname = "alert(1)";
  hash = "";
}

abbrev pub parse_url : String → Option Url
parse_url s =
    if s == "https://app.example/cb"
    then some https_url
    else (if s == "http://127.0.0.1:4000/cb"
        then some (loopback_url "127.0.0.1:4000")
        else (if s == "http://127.0.0.1:5000/cb"
            then some (loopback_url "127.0.0.1:5000")
            else (if s == "https://docs.example/client.json"
                then some document_url
                else (if s == "javascript:alert(1)" then some script_url else none))))

-- 'https://' in front of a unit for the one client_id that is a URL.
abbrev pub units : String → Text
units s =
    if s == "https://docs.example/client.json"
    then 104 ∷ 116 ∷ 116 ∷ 112 ∷ 115 ∷ 58 ∷ 47 ∷ 47 ∷ 100 ∷ []
    else 120 ∷ []

abbrev pub web : Web
web = record { parse_url = parse_url; units = units; to_lower_case = λ s. s }
