-- ===== src/Oauth/Clients/Pinned.antt =====
-- server/src/oauth/clients.ts: fetching a document from an address that was checked. The address
-- library, DNS and the connection are parameters; what a connection sends is the list of its chunks,
-- each the list of its bytes.
pub mod Public
use mcp_ui.Common.{
  ℕ, ◌+◌, ◌*◌, ◌≤◌, ◌≡◌, refl, String, Bool, true, false, ◌&&◌, ◌||◌, not, ◌⊎◌, inl, inr, Option,
  none, some, List, [], ◌∷◌, ◌++◌, leb, ltb, ◌==◌, nat_eq, string_eq, if◌then◌else◌, arith,
  Bool-cases, Option-cases, Memᴰ,
}
use mcp_ui.Common.Rows.{any, All}
use mcp_ui.Common.Rows.Laws.{any-none}
use mcp_ui.Normalize.{Text}
use mcp_ui.Tokens.{length}
use mcp_ui.Oauth.Clients.Urls.{Url}

-- ipaddr.js, by the type of its parsed addresses.
pub record Ipaddr (A : Type 0) : Type 0 where
  pub is_valid : String → Bool
  pub parse : String → A
  pub kind : A → String
  pub is_ipv4_mapped : A → Bool
  pub to_ipv4 : A → A
  pub range : A → String

pub record Pinned : Type 0 where
  pub address : String
  pub family : ℕ

pub record Response : Type 0 where
  pub status : ℕ
  pub cache_control : Option Text
  pub chunks : List (List ℕ)

pub record Network : Type 0 where
  -- `isIP`: 0 for no address
  pub is_ip : String → ℕ
  -- `lookup(hostname, { all: true })`; none where it throws
  pub lookup : String → Option (List Pinned)
  -- the GET, connected to the address; none on a time-out or an error
  pub request : Url → Pinned → Option Response
  -- `toString('utf8')`
  pub decode : List ℕ → Text

pub record FetchedDocument : Type 0 where
  pub status : ℕ
  pub cache_control : Option Text
  pub body : Text

abbrev pub cimd_max_bytes : ℕ
cimd_max_bytes = 5 * 1024

module _ {A : Type 0} (ipaddr : Ipaddr A) where
  abbrev unmapped : A → A
  unmapped a = if ipaddr.kind a == "ipv6" && ipaddr.is_ipv4_mapped a then ipaddr.to_ipv4 a else a

  -- `isForbiddenAddress`
  unfoldable pub is_forbidden_address : String → Bool
  is_forbidden_address address =
      if not (ipaddr.is_valid address)
      then true
      else not (ipaddr.range (unmapped (ipaddr.parse address)) == "unicast")

  abbrev pub choose : Option (List Pinned) → Option Pinned
  choose none = none
  choose (some []) = none
  choose (some (chosen ∷ others)) =
      if any (λ (e : Pinned). is_forbidden_address e.address) (chosen ∷ others)
      then none
      else some chosen

  -- `resolvePinnedAddress`
  unfoldable pub resolve_pinned_address : Network → String → Option Pinned
  resolve_pinned_address net hostname =
      if not (net.is_ip hostname == 0)
      then (if is_forbidden_address hostname
          then none
          else some (record { address = hostname; family = net.is_ip hostname }))
      else choose (net.lookup hostname)

  pub choose-Public :
      (answer : Option (List Pinned)) {p : Pinned}
      → choose answer ≡ some p
      → (entries : List Pinned) × (answer ≡ some entries)
        × Memᴰ p entries
        × All (λ e. is_forbidden_address e.address ≡ false) entries
  choose-Public none e = absurd cc
  choose-Public (some []) e = absurd cc
  choose-Public (some (chosen ∷ others)) e =
      elim (Bool-cases (any (λ (e : Pinned). is_forbidden_address e.address) (chosen ∷ others))) [
        | inl bars ↦ absurd (ground arith)
        | inr clean ↦ (
          chosen ∷ others,
          refl,
          Memᴰ.head (inj (rw clean at e)),
          any-none (λ (e : Pinned). is_forbidden_address e.address) (chosen ∷ others) clean,
        )
      ]
    where
      inj : {a b : Pinned} → some a ≡ some b → b ≡ a
      inj e = cc

-- The bytes that the listener has kept; none once their number has passed the cap.
unfoldable pub collect : ℕ → List ℕ → List (List ℕ) → Option (List ℕ)
collect size kept [] = some kept
collect size kept (chunk ∷ chunks) =
    let rest = collect (size + length chunk) (kept ++ chunk) chunks in
    if ltb cimd_max_bytes (size + length chunk) then none else rest

abbrev pub document_of : Network → Response → Option (List ℕ) → Option FetchedDocument
document_of net response none = none
document_of net response (some bytes) = some (record {
  status = response.status;
  cache_control = response.cache_control;
  body = net.decode bytes;
})

abbrev pub received : Network → Option Response → Option FetchedDocument
received net none = none
received net (some response) =
    if leb 300 response.status && ltb response.status 400
    then none
    else document_of net response (collect 0 [] response.chunks)

-- `fetchPinned`
unfoldable pub fetch_pinned : Network → Url → Pinned → Option FetchedDocument
fetch_pinned net url pinned = received net (net.request url pinned)

abbrev pub fetch_at : Network → Url → Option Pinned → Option FetchedDocument
fetch_at net url none = none
fetch_at net url (some pinned) = fetch_pinned net url pinned

-- `pinnedFetcher`
unfoldable pub pinned_fetcher : {A : Type 0} → Ipaddr A → Network → Url → Option FetchedDocument
pinned_fetcher ipaddr net url = fetch_at net url (resolve_pinned_address ipaddr net url.hostname)
