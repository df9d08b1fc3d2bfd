-- ===== src/Oauth/Clients/Resolve/Sound.antt =====
-- server/src/oauth/clients.ts: on what ground a client_id is resolved.
use mcp_ui.Common.{
  ℕ, String, Bool, true, false, ◌&&◌, ◌||◌, not, ◌≡◌, refl, sym, inl, inr, Option, none, some, List,
  [], leb, ltb, ◌==◌, string_eq, option_eq, list_eq, nat_eq, text_eq, arith, Bool-cases, Memᴰ,
}
use mcp_ui.Common.Rows.{first}
use mcp_ui.Common.Rows.Laws.{first-some}
use mcp_ui.Common.Dict.{Dict}
use mcp_ui.Tokens.{length, starts_with}
use mcp_ui.RateLimit.{Window}
use mcp_ui.Oauth.Clients.Urls.{Url}
use mcp_ui.Oauth.Clients.Registration.{ClientRow}
use mcp_ui.Oauth.Clients.Pinned.{FetchedDocument, cimd_max_bytes}
use mcp_ui.Oauth.Clients.Resolve.{
  ResolvedClient, CimdRow, Document, Directory, ClientTables, document_client, cached_client,
  cached_document, cimd_fetch_allowed, read_document, read_response, fetch_document,
  cached_or_fetched, resolve_at, resolve_metadata_document, registered_client,
  resolve_registered_client, uris_of, https_prefix, first_party_client, resolve_client,
}

some_inj : {A : Type 0} {a b : A} → some a ≡ some b → a ≡ b
some_inj e = cc

-- How a client can be known.
pub data Grounds (dir : Directory) (client_id : String) (t : ClientTables) (c : ResolvedClient)
    : Type 0 where
  our_app :
      client_id ≡ dir.first_party_client_id → c ≡ first_party_client dir → Grounds dir client_id t c
  by_document :
      (uris : List String) (host digest : String)
      → c ≡ document_client dir client_id uris host digest
      → Grounds dir client_id t c
  by_row :
      (row : ClientRow)
      → Memᴰ row t.clients
      → row.client_id ≡ client_id
      → registered_client client_id (some row) ≡ some c
      → Grounds dir client_id t c

module _ (dir : Directory) (now : ℕ) (client_id : String) where
  -- The client is described by a document of this address.
  abbrev IsDocuments : ResolvedClient → Type 0
  IsDocuments c =
      (uris : List String) × (host : String) × (digest : String) × (c
        ≡ document_client dir client_id uris host digest)

  cached-IsDocuments :
      (o : Option CimdRow) {c : ResolvedClient}
      → cached_client dir client_id o ≡ some c
      → IsDocuments c
  cached-IsDocuments none e = absurd cc
  cached-IsDocuments (some row) e =
      (row.redirect_uris, row.display_host, row.digest, sym (some_inj e))

  read_document-IsDocuments :
      (url : Url) (response : FetchedDocument) (o : Option Document) (t : ClientTables)
      {c : ResolvedClient}
      → (read_document dir now client_id url response o t).0 ≡ some c
      → IsDocuments c
  read_document-IsDocuments url response none t e = absurd cc
  read_document-IsDocuments url response (some document) t e =
      let uris = uris_of document.redirect_uris in
      elim (Bool-cases (not (document.client_id == some client_id) || uris == [])) [
        | inl bad ↦ absurd (ground arith)
        | inr fine ↦ (uris, url.host, dir.sha256_hex response.body, sym (some_inj (rw fine at e)))
      ]

  read_response-IsDocuments :
      (url : Url) (o : Option FetchedDocument) (t : ClientTables) {c : ResolvedClient}
      → (read_response dir now client_id url o t).0 ≡ some c
      → IsDocuments c
  read_response-IsDocuments url none t e = absurd cc
  read_response-IsDocuments url (some response) t e =
      elim (Bool-cases (ltb response.status 200 || leb 300 response.status)) [
        | inl bad ↦ absurd (ground arith)
        | inr fine ↦ elim (Bool-cases (ltb cimd_max_bytes (dir.byte_length response.body))) [
          | inl large ↦ absurd (ground arith)
          | inr small ↦
              read_document-IsDocuments url response (dir.parse_json response.body) t
                (rw (fine, small) at e)
        ]
      ]

  fetch_document-IsDocuments :
      (url : Url) (allowance : Bool × Dict Window) (t : ClientTables) {c : ResolvedClient}
      → (fetch_document dir now client_id url allowance t).0 ≡ some c
      → IsDocuments c
  fetch_document-IsDocuments url (true, windows) t e =
      read_response-IsDocuments url (dir.fetcher url) (record t { windows = windows }) e
  fetch_document-IsDocuments url (false, windows) t e = absurd cc

  cached_or_fetched-IsDocuments :
      (url : Url) (o : Option CimdRow) (t : ClientTables) {c : ResolvedClient}
      → (cached_or_fetched dir now client_id url (cached_client dir client_id o) t).0 ≡ some c
      → IsDocuments c
  cached_or_fetched-IsDocuments url none t e =
      fetch_document-IsDocuments url (cimd_fetch_allowed dir.web now url.host t.windows) t e
  cached_or_fetched-IsDocuments url (some row) t e = cached-IsDocuments (some row) e

  resolve_at-IsDocuments :
      (o : Option Url) (t : ClientTables) {c : ResolvedClient}
      → (resolve_at dir now client_id o t).0 ≡ some c
      → IsDocuments c
  unfolding cached_document
  resolve_at-IsDocuments none t e = absurd cc
  resolve_at-IsDocuments (some url) t e =
      elim (Bool-cases (not (url.protocol == "https:") || not (url.hash == ""))) [
        | inl bad ↦ absurd (ground arith)
        | inr fine ↦
            cached_or_fetched-IsDocuments url
              (first (λ r. r.client_id == client_id && ltb now r.expires_at) t.cimd_cache) t
              (rw fine at e)
      ]

  registered-Grounds :
      (o : Option ClientRow) (t : ClientTables) {c : ResolvedClient}
      → first (λ r. r.client_id == client_id) t.clients ≡ o
      → registered_client client_id o ≡ some c
      → Grounds dir client_id t c
  registered-Grounds none t found e = absurd cc
  registered-Grounds (some row) t found e =
      let (same, m) = first-some (λ (r : ClientRow). r.client_id == client_id) t.clients found in
      Grounds.by_row row m ((text_eq row.client_id client_id).0 same) e

  -- A client that is resolved is our own app, or is described by a document at its id, or has a
  -- row in the table.
  pub resolve_client-Grounds :
      (t : ClientTables) {c : ResolvedClient}
      → (resolve_client dir now (some client_id) t).0 ≡ some c
      → Grounds dir client_id t c
  unfolding resolve_client resolve_metadata_document resolve_registered_client
  resolve_client-Grounds t e =
      let units = dir.web.units client_id in
      elim (Bool-cases (length units == 0 || ltb 2048 (length units))) [
        | inl long ↦ absurd (ground arith)
        | inr fine ↦ elim (Bool-cases (client_id == dir.first_party_client_id)) [
          | inl ours ↦
              Grounds.our_app ((text_eq client_id dir.first_party_client_id).0 ours)
                (sym (some_inj (rw (fine, ours) at e)))
          | inr other ↦ elim (Bool-cases (starts_with https_prefix units)) [
            | inl url ↦
                let (uris, host, digest, same) =
                  resolve_at-IsDocuments (dir.web.parse_url client_id) t
                    (rw (fine, other, url) at e) in
                Grounds.by_document uris host digest same
            | inr name ↦
                registered-Grounds (first (λ r. r.client_id == client_id) t.clients) t refl
                  (rw (fine, other, name) at e)
          ]
        ]
      ]
