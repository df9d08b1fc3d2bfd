-- ===== src/Oauth/Clients/Pinned/Public.antt =====
-- server/src/oauth/clients.ts: where a document comes from, and how much of it is read.
use mcp_ui.Common.{
  ℕ, ◌+◌, ◌≤◌, ◌≡◌, refl, ◌∙◌, ap, sym, String, false, ◌&&◌, inl, inr, Option, none, some, List, [],
  ◌∷◌, ◌++◌, leb, ltb, ◌==◌, nat_eq, arith, Bool-cases, Option-cases, subst,
}
use mathlib.Core.List.{append-nil, append_assoc}
use mcp_ui.Common.Rows.Laws.{All-at}
use mcp_ui.Tokens.{length}
use mcp_ui.Oauth.Clients.Urls.{Url}
use mcp_ui.Oauth.Clients.Pinned.{
  Ipaddr, Pinned, Response, Network, FetchedDocument, cimd_max_bytes, is_forbidden_address,
  choose-Public, resolve_pinned_address, collect, received, fetch_pinned, fetch_at, pinned_fetcher,
}

-- The chunks, joined.
pub concat : List (List ℕ) → List ℕ
concat [] = []
concat (chunk ∷ chunks) = chunk ++ concat chunks

module _ {A : Type 0} (ipaddr : Ipaddr A) (net : Network) where
  pub pinned-Public :
      (hostname : String) {p : Pinned}
      → resolve_pinned_address ipaddr net hostname ≡ some p
      → is_forbidden_address ipaddr p.address ≡ false
  unfolding resolve_pinned_address
  pinned-Public hostname {p} e = elim (Bool-cases (net.is_ip hostname == 0)) [
    | inl name ↦
        let (entries, answer, m, clean) =
          choose-Public ipaddr (net.lookup hostname) (rw name at e) in
        All-at (λ e. is_forbidden_address ipaddr e.address ≡ false) entries clean m
    | inr literal ↦ elim (Bool-cases (is_forbidden_address ipaddr hostname)) [
      | inl bars ↦ absurd (ground arith)
      | inr clean ↦
          let same = inj (rw (literal, clean) at e) in
          subst (λ q. is_forbidden_address ipaddr q.address ≡ false) same clean
    ]
  ]
    where
      inj : {a b : Pinned} → some a ≡ some b → a ≡ b
      inj e = cc

length-append : (xs ys : List ℕ) → length (xs ++ ys) ≡ length xs + length ys
unfolding length
length-append [] ys = ground arith
length-append (x ∷ xs) ys = ground (arith, length-append xs ys)

-- What is kept is everything that was sent, and within the cap.
collect_all :
    (size : ℕ) (kept : List ℕ) (chunks : List (List ℕ)) {bytes : List ℕ}
    → length kept ≡ size
    → size ≤ cimd_max_bytes
    → collect size kept chunks ≡ some bytes
    → (bytes ≡ kept ++ concat chunks) × (length bytes ≤ cimd_max_bytes)
unfolding collect concat
collect_all size kept [] {bytes} counted small e =
    let same : kept ≡ bytes = cc in
    (sym same ∙ sym (append-nil kept), rw (← same) (ground (arith, counted)))
collect_all size kept (chunk ∷ chunks) counted small e =
    elim (Bool-cases (ltb cimd_max_bytes (size + length chunk))) [
      | inl over ↦ absurd (ground arith)
      | inr within ↦
          let (all, short) =
            collect_all (size + length chunk) (kept ++ chunk) chunks
              (length-append kept chunk ∙ ap (λ n. n + length chunk) counted) (ground arith)
              (rw within at e) in
          (all ∙ append_assoc kept chunk (concat chunks), short)
    ]

-- A fetched document, and the answer of the address that it came from.
pub record Fetched {A : Type 0} (ipaddr : Ipaddr A) (net : Network) (url : Url)
    (document : FetchedDocument) : Type 0 where
  pub pinned : Pinned
  pub response : Response
  pub public : is_forbidden_address ipaddr pinned.address ≡ false
  pub answered : net.request url pinned ≡ some response
  pub status : document.status ≡ response.status
  pub not_redirected : (leb 300 response.status && ltb response.status 400) ≡ false
  pub whole : document.body ≡ net.decode (concat response.chunks)
  pub small : length (concat response.chunks) ≤ cimd_max_bytes

module _ {A : Type 0} (ipaddr : Ipaddr A) (net : Network) (url : Url) where
  received-Fetched :
      (pinned : Pinned) (answer : Option Response) {document : FetchedDocument}
      → is_forbidden_address ipaddr pinned.address ≡ false
      → net.request url pinned ≡ answer
      → received net answer ≡ some document
      → Fetched ipaddr net url document
  unfolding length
  received-Fetched pinned none public answered e = absurd cc
  received-Fetched pinned (some response) {document} public answered e =
      elim (Bool-cases (leb 300 response.status && ltb response.status 400)) [
        | inl redirect ↦ absurd (ground arith)
        | inr plain ↦ elim (Option-cases (collect 0 [] response.chunks)) [
          | inl over ↦ absurd (ground arith)
          | inr (bytes, kept) ↦
              let (all, short) = collect_all 0 [] response.chunks refl (ground arith) kept in
              let same = inj (rw (plain, kept) at e) in
              record {
                pinned = pinned;
                response = response;
                public = public;
                answered = answered;
                status = ap (λ d. d.status) (sym same);
                not_redirected = plain;
                whole = ap (λ d. d.body) (sym same) ∙ ap net.decode all;
                small = subst (λ b. length b ≤ cimd_max_bytes) all short;
              }
        ]
      ]
    where
      inj : {a b : FetchedDocument} → some a ≡ some b → a ≡ b
      inj e = cc

  fetch_at-Fetched :
      (o : Option Pinned) {document : FetchedDocument}
      → resolve_pinned_address ipaddr net url.hostname ≡ o
      → fetch_at net url o ≡ some document
      → Fetched ipaddr net url document
  unfolding fetch_pinned
  fetch_at-Fetched none found e = absurd cc
  fetch_at-Fetched (some pinned) found e =
      received-Fetched pinned (net.request url pinned) (pinned-Public ipaddr net url.hostname found)
        refl e

  -- A document that the fetcher gives was sent from an address that is not forbidden, over the one
  -- connection that was made to it, without a redirect; it is all of what was sent, and at most
  -- 5120 bytes.
  pub pinned_fetcher-Fetched :
      {document : FetchedDocument}
      → pinned_fetcher ipaddr net url ≡ some document
      → Fetched ipaddr net url document
  unfolding pinned_fetcher
  pinned_fetcher-Fetched e =
      fetch_at-Fetched (resolve_pinned_address ipaddr net url.hostname) refl e
