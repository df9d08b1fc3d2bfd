-- ===== src/Oauth/Consents/Recorded.antt =====
-- server/src/oauth/consents.ts: what an approval makes of the approvals before it.
use mcp_ui.Common.{
  ℕ, ◌+◌, ◌*◌, ◌<◌, ◌≡◌, refl, sym, ap, ◌∙◌, String, Bool, true, false, ◌&&◌, inl, inr, Option,
  none, some, List, [], ◌∷◌, ◌==◌, string_eq, option_eq, arith, Bool-cases, beq_self, if◌then◌else◌,
  subst,
}
use mcp_ui.Common.Rows.{first, update, every, All}
use mcp_ui.Common.Rows.Laws.{every-All, every_of_All, All-of, All-at}
use mcp_ui.Normalize.{Text}
use mcp_ui.Exec.{Result, ok}
use mcp_ui.Oauth.Scope.{words, is_blank, join, includes}
use mcp_ui.Oauth.Scope.Words.{IsWord, words-All, words-join}
use mcp_ui.Oauth.Types.{PendingAuthorization, seconds}
use mcp_ui.Oauth.Clients.Urls.{Web}
use mcp_ui.Oauth.Consents.{
  ConsentRow, redirect_host, rememberable, days_for, consent_of, in_days, covered, find_at,
  find_remembered_consent, approved, renewed, upsert, record_at, record_consent,
}
use mcp_ui.Oauth.Consents.Sets.{union, sort, includes-sort, includes-union, All-union, All-sort}

-- The same authorization with other scopes.
abbrev pub asking : PendingAuthorization → List Text → PendingAuthorization
asking pending scopes = record pending { request = record pending.request { scopes = scopes } }

-- A row that an UPDATE moves into a narrower search.
some_inj : {A : Type 0} {a b : A} → some a ≡ some b → a ≡ b
some_inj e = cc

first-moved :
    {R : Type 0} (p q : R → Bool) (f : R → R) (xs : List R) {x : R}
    → first p xs ≡ some x
    → ((y : R) → p y ≡ true → q (f y) ≡ true)
    → ((y : R) → p y ≡ false → q y ≡ false)
    → first q (update p f xs) ≡ some (f x)
unfolding first update
first-moved p q f [] e hit miss = absurd cc
first-moved p q f (y ∷ xs) {x} e hit miss = elim (Bool-cases (p y)) [
  | inl t ↦ rw (t, hit y t) (ap (λ z. some (f z)) (some_inj (rw t at e)))
  | inr t ↦ rw (t, miss y t) (first-moved p q f xs (rw t at e) hit miss)
]

first-top {ℓ} :
    {R : Type ℓ} (p : R → Bool) (x : R) (xs : List R) → p x ≡ true → first p (x ∷ xs) ≡ some x
unfolding first
first-top p x xs e = rw e refl

module _ (pending : PendingAuthorization) where
  approved-IsWord :
      (o : Option ConsentRow)
      → All (IsWord is_blank) pending.request.scopes
      → All (IsWord is_blank) (approved pending o)
  approved-IsWord none h = All-union (IsWord is_blank) [] pending.request.scopes tt h
  approved-IsWord (some row) h =
      let asked = All-union (IsWord is_blank) [] pending.request.scopes tt h in
      either (row.document_digest == pending.request.document_digest) _ _
        (All-union (IsWord is_blank) (union [] pending.request.scopes) (words is_blank row.scopes)
          asked (words-All is_blank row.scopes))
        asked
    where
      either :
          (b : Bool) (x y : List Text)
          → All (IsWord is_blank) x
          → All (IsWord is_blank) y
          → All (IsWord is_blank) (if b then x else y)
      either true x y h k = h
      either false x y h k = k

  -- The scopes that are kept can be read again.
  kept-includes :
      (o : Option ConsentRow) (asked : List Text)
      → All (IsWord is_blank) pending.request.scopes
      → every (λ s. includes (approved pending o) s) asked ≡ true
      → every (λ s. includes (words is_blank (join (sort (approved pending o)))) s) asked ≡ true
  kept-includes o asked h e =
      let kept = sort (approved pending o) in
      let back =
        words-join kept (All-sort (IsWord is_blank) (approved pending o) (approved-IsWord o h)) in
      rw back (
        every_of_All (λ s. includes kept s) asked
          (again asked (every-All (λ s. includes (approved pending o) s) asked e)))
    where
      again :
          (asked : List Text)
          → All (λ s. includes (approved pending o) s ≡ true) asked
          → All (λ s. includes (sort (approved pending o)) s ≡ true) asked
      again [] h = tt
      again (s ∷ asked) h = (includes-sort s (approved pending o) ∙ h.0, again asked h.1)

-- The person agreed to the scope: now, or in an earlier approval of the same client and redirect
-- host under the same document, whose days are not over.
pub data Agreed (now : ℕ) (account_id : String) (pending : PendingAuthorization) (host : String)
    (rows : List ConsentRow) (scope : Text) : Type 0 where
  agreed_now :
      includes pending.request.scopes scope ≡ true → Agreed now account_id pending host rows scope
  agreed_before :
      (row : ConsentRow)
      → first (consent_of account_id pending.request.client_id host) rows ≡ some row
      → now < row.granted_at + seconds (86400 * days_for pending.request.client_trust)
      → row.document_digest ≡ pending.request.document_digest
      → includes (words is_blank row.scopes) scope ≡ true
      → Agreed now account_id pending host rows scope

module _ (web : Web) (now later : ℕ) (new_id account_id : String)
    (pending : PendingAuthorization) where
  -- The row that the upsert keeps is found later.
  kept-found :
      (host : String) (o : Option ConsentRow) (rows : List ConsentRow) (scopes : Text)
      (asked : List Text)
      → first (consent_of account_id pending.request.client_id host) rows ≡ o
      → later < now + seconds (86400 * days_for pending.request.client_trust)
      → every (λ s. includes (words is_blank scopes) s) asked ≡ true
      → let (id, rows') = upsert now new_id account_id pending host scopes o rows in
        (covered (asking pending asked) (
            first
              (λ row.
                consent_of account_id pending.request.client_id host row
                && in_days later (days_for pending.request.client_trust) row)
              rows')
          ≡ id)
        × ((k : String) × (id ≡ some k))
  kept-found host none rows scopes asked found soon all =
      let row : ConsentRow = record {
        id = new_id;
        account_id = account_id;
        client_id = pending.request.client_id;
        redirect_host = host;
        scopes = scopes;
        document_digest = pending.request.document_digest;
        granted_at = now;
      } in
      let on : (consent_of account_id pending.request.client_id host row
            && in_days later (days_for pending.request.client_trust) row)
          ≡ true =
        rw (beq_self account_id, beq_self pending.request.client_id, beq_self host)
          (ground arith) in
      (
        ap (covered (asking pending asked)) (
              first-top
                (λ row.
                  consent_of account_id pending.request.client_id host row
                  && in_days later (days_for pending.request.client_trust) row)
                row rows on)
            ∙ rw (beq_self pending.request.document_digest, all) refl,
        (new_id, refl),
      )
  kept-found host (some previous) rows scopes asked found soon all = (
    ap (covered (asking pending asked)) (
          first-moved (consent_of account_id pending.request.client_id host)
            (λ row.
              consent_of account_id pending.request.client_id host row
              && in_days later (days_for pending.request.client_trust) row)
            (renewed now pending scopes) rows found (λ row e. rw e (ground arith))
            (λ row e. rw e refl))
        ∙ rw (beq_self pending.request.document_digest, all) refl,
    (previous.id, refl),
  )

  record_at-remembered :
      (o : Result String) (host : String) (rows : List ConsentRow) (asked : List Text)
      → o ≡ ok host
      → All (IsWord is_blank) pending.request.scopes
      → later < now + seconds (86400 * days_for pending.request.client_trust)
      → every
          (λ s.
            includes
              (approved pending (first (consent_of account_id pending.request.client_id host) rows))
              s)
          asked
        ≡ true
      → let (answer, rows') = record_at now new_id account_id pending o rows in
        (id : String) × (answer ≡ ok (some id))
        × (find_at later account_id (asking pending asked) o rows' ≡ ok (some id))
  record_at-remembered o host rows asked at good soon all =
      subst
        (λ o.
          let (answer, rows') = record_at now new_id account_id pending o rows in
          (id : String) × (answer ≡ ok (some id))
          × (find_at later account_id (asking pending asked) o rows' ≡ ok (some id)))
        (sym at)
        (let previous = first (consent_of account_id pending.request.client_id host) rows in
          let (same, (id, e)) =
            kept-found host previous rows (join (sort (approved pending previous))) asked refl soon
              (kept-includes pending previous asked good all) in
          (id, ap ok e, ap ok (same ∙ e)))

  Agreed-approved :
      (host : String) (rows : List ConsentRow) (scope : Text)
      → Agreed now account_id pending host rows scope
      → includes
          (approved pending (first (consent_of account_id pending.request.client_id host) rows))
          scope
        ≡ true
  Agreed-approved host rows scope (agreed_now e) =
      asked (first (consent_of account_id pending.request.client_id host) rows)
    where
      fresh : includes (union [] pending.request.scopes) scope ≡ true
      fresh = includes-union scope [] pending.request.scopes ∙ rw e refl

      asked : (o : Option ConsentRow) → includes (approved pending o) scope ≡ true
      asked none = fresh
      asked (some row) =
          elim (Bool-cases (row.document_digest == pending.request.document_digest)) [
            | inl same ↦
                rw
                  (
                    same,
                    includes-union scope (union [] pending.request.scopes)
                        (words is_blank row.scopes),
                    fresh,
                  )
                  (ground arith)
            | inr other ↦ rw other fresh
          ]
  Agreed-approved host rows scope (agreed_before row at live same e) =
      rw
        (
          at,
          same,
          beq_self pending.request.document_digest,
          includes-union scope (union [] pending.request.scopes) (words is_blank row.scopes),
          e,
        )
        refl

  -- An approval is remembered: until its days are over, counted from now, the same client under the
  -- same document and redirect host may ask without the screen for the scopes that the person
  -- agreed to, now or in the approval before under the same document whose days are not over. The
  -- client is none that registered itself, the redirect URI is parsed, and the scopes approved are
  -- words.
  pub recorded-remembered :
      (host : String) (rows : List ConsentRow) (asked : List Text)
      → rememberable pending ≡ true
      → redirect_host web pending.request.redirect_uri ≡ ok host
      → All (IsWord is_blank) pending.request.scopes
      → later < now + seconds (86400 * days_for pending.request.client_trust)
      → All (Agreed now account_id pending host rows) asked
      → let (answer, rows') = record_consent web now new_id account_id pending rows in
        (id : String) × (answer ≡ ok (some id))
        × (find_remembered_consent web later account_id (asking pending asked) rows' ≡ ok (some id))
  unfolding record_consent find_remembered_consent rememberable
  recorded-remembered host rows asked lasting at good soon agreed = rw lasting (
      record_at-remembered (redirect_host web pending.request.redirect_uri) host rows asked at good
        soon
        (every_of_All _ asked (
          All-of _ asked (λ s m.
            Agreed-approved host rows s
              (All-at (Agreed now account_id pending host rows) asked agreed m)))))
