-- ===== src/Oauth/Clients/Registration/Valid.antt =====
-- server/src/oauth/clients.ts: what the table of registered clients holds.
use mcp_ui.Common.{
  ℕ, ◌≤◌, String, Bool, true, false, ◌≡◌, refl, inl, inr, Option, none, some, List, [], ◌∷◌, ◌==◌,
  nat_eq, arith, Bool-cases, Option-cases, Memᴰ, ltb, leb, ◌||◌, subst, ap,
}
use mcp_ui.Common.Rows.{delete, All}
use mcp_ui.Common.Rows.Laws.{All-delete}
use mcp_ui.Normalize.{Text}
use mcp_ui.Tokens.{length}
use mcp_ui.Oauth.Types.{GrantRow}
use mcp_ui.Oauth.Clients.Urls.{Web, is_registerable_redirect_uri}
use mcp_ui.Oauth.Clients.Registration.{
  ClientRow, dcr, ApplicationType, ClientRegistration, RegistrationError, invalid_redirect_uri,
  invalid_client_metadata, refused, uri_accepted, accepted_uris, evictable, evict_unused_clients,
  insert_client, register_client, application_type_of, with_uri, register_accepted, register_as,
  entries_of, clean_name, max_registered_clients,
}

-- A row that registration made lists redirect URIs that may be registered and suit its type.
abbrev pub RowIsValid : Web → ClientRow → Type 0
RowIsValid w row =
    row.source ≡ dcr
    → (kind : ApplicationType) × (row.application_type ≡ some kind)
      × All (λ uri. uri_accepted w kind uri ≡ true) row.redirect_uris

pub record IsValid (w : Web) (rows : List ClientRow) : Type 0 where
  pub each : All (RowIsValid w) rows
  pub capped : length rows ≤ max_registered_clients

length-delete :
    (p : ClientRow → Bool) (rows : List ClientRow) → length (delete p rows) ≤ length rows
unfolding length delete
length-delete p [] = ground arith
length-delete p (x ∷ rows) = elim (Bool-cases (p x)) [
  | inl e ↦ rw e (ground (arith, length-delete p rows))
  | inr e ↦ rw e (ground (arith, length-delete p rows))
]

pub evict-IsValid :
    (w : Web) (now : ℕ) (grants : List GrantRow) (rows : List ClientRow)
    → IsValid w rows
    → IsValid w (evict_unused_clients now grants rows)
unfolding evict_unused_clients
evict-IsValid w now grants rows h = record {
  each = All-delete (RowIsValid w) (evictable now grants) rows h.each;
  capped = ground (arith, length-delete (evictable now grants) rows, h.capped);
}

some_inj : {A : Type 0} {a b : A} → some a ≡ some b → a ≡ b
some_inj e = cc

-- What no registration may list.
abbrev pub Unacceptable : Web → Option String → Type 0
Unacceptable w none = Unit
Unacceptable w (some uri) = is_registerable_redirect_uri w uri ≡ false

accepted-Unacceptable :
    (w : Web) (kind : ApplicationType) (uri : String)
    → uri_accepted w kind uri ≡ true
    → ¬ Unacceptable w (some uri)
accepted-Unacceptable w kind uri fine bad = ground arith

accepted_uris-All :
    (w : Web) (kind : ApplicationType) (entries : List (Option String)) {uris : List String}
    → accepted_uris w kind entries ≡ some uris
    → All (λ uri. uri_accepted w kind uri ≡ true) uris
unfolding accepted_uris
accepted_uris-All w kind [] {uris} e = subst (All _) (some_inj e) tt
accepted_uris-All w kind (none ∷ entries) e = absurd cc
accepted_uris-All w kind (some uri ∷ entries) e = elim (Bool-cases (uri_accepted w kind uri)) [
  | inr bad ↦ absurd (ground arith)
  | inl fine ↦ elim (Option-cases (accepted_uris w kind entries)) [
    | inl stop ↦ absurd (ground arith)
    | inr (rest, more) ↦
        let same = some_inj (rw (fine, more) at e) in
        subst (All _) same (fine, accepted_uris-All w kind entries more)
  ]
]

insert-IsValid :
    (w : Web) (now : ℕ) (random : String) (name : Option Text) (kind : ApplicationType)
    (uris : List String) (rows : List ClientRow)
    → All (λ uri. uri_accepted w kind uri ≡ true) uris
    → IsValid w rows
    → IsValid w (insert_client now random name kind uris rows).1
unfolding insert_client length
insert-IsValid w now random name kind uris rows fine h =
    elim (Bool-cases (leb max_registered_clients (length rows))) [
      | inl full ↦ rw full h
      | inr room ↦
          rw room
            (record { each = (λ _. (kind, refl, fine), h.each); capped = ground (arith, room) })
    ]

register_accepted-IsValid :
    (w : Web) (now : ℕ) (random : String) (grants : List GrantRow) (name : Option Text)
    (kind : ApplicationType) (entries : List (Option String)) (o : Option (List String))
    (rows : List ClientRow)
    → accepted_uris w kind entries ≡ o
    → IsValid w rows
    → IsValid w (register_accepted now random grants name kind o rows).1
register_accepted-IsValid w now random grants name kind entries none rows e h = h
register_accepted-IsValid w now random grants name kind entries (some uris) rows e h =
    insert-IsValid w now random name kind uris (evict_unused_clients now grants rows)
      (accepted_uris-All w kind entries e) (evict-IsValid w now grants rows h)

register_as-IsValid :
    (w : Web) (now : ℕ) (random : String) (grants : List GrantRow) (given : ClientRegistration)
    (kind : Option ApplicationType) (rows : List ClientRow)
    → IsValid w rows
    → IsValid w (register_as w now random grants given kind rows).1
register_as-IsValid w now random grants given none rows h = h
register_as-IsValid w now random grants given (some kind) rows h =
    let entries = entries_of given.redirect_uris in
    elim (Bool-cases (length entries == 0 || ltb 10 (length entries))) [
      | inl e ↦ rw e h
      | inr e ↦ rw e (
          register_accepted-IsValid w now random grants (clean_name given.client_name) kind entries
            (accepted_uris w kind entries) rows refl h)
    ]

-- Registration keeps the table of clients valid: each registered row lists only redirect URIs that
-- may be registered and that suit its type, and there are at most 500 rows.
pub register_client-IsValid :
    (w : Web) (now : ℕ) (random : String) (grants : List GrantRow) (given : ClientRegistration)
    (rows : List ClientRow)
    → IsValid w rows
    → IsValid w (register_client w now random grants given rows).1
unfolding register_client
register_client-IsValid w now random grants given rows h =
    register_as-IsValid w now random grants given (application_type_of given.application_type) rows
      h

-- One entry that is not a text or is not acceptable ends the loop.
accepted_uris-none :
    (w : Web) (kind : ApplicationType) (entries : List (Option String)) {entry : Option String}
    → Memᴰ entry entries
    → Unacceptable w entry
    → accepted_uris w kind entries ≡ none
unfolding accepted_uris
accepted_uris-none w kind [] m bad = elim m [ ]
accepted_uris-none w kind (none ∷ entries) m bad = refl
accepted_uris-none w kind (some uri ∷ entries) {entry} m bad =
    elim (Bool-cases (uri_accepted w kind uri)) [
      | inr bars ↦ rw bars refl
      | inl fine ↦ rw fine (elim m [
        | Memᴰ.head e ↦
            absurd (accepted-Unacceptable w kind uri fine (subst (Unacceptable w) e bad))
        | Memᴰ.tail n ↦ ap (with_uri uri) (accepted_uris-none w kind entries n bad)
      ])
    ]

register_as-refused :
    (w : Web) (now : ℕ) (random : String) (grants : List GrantRow) (given : ClientRegistration)
    (kind : Option ApplicationType) (rows : List ClientRow) {entry : Option String}
    → Memᴰ entry (entries_of given.redirect_uris)
    → Unacceptable w entry
    → (error : RegistrationError) × (register_as w now random grants given kind rows
        ≡ (refused error, rows))
register_as-refused w now random grants given none rows m bad = (invalid_client_metadata, refl)
register_as-refused w now random grants given (some kind) rows m bad =
    let entries = entries_of given.redirect_uris in
    (
      invalid_redirect_uri,
      elim (Bool-cases (length entries == 0 || ltb 10 (length entries))) [
        | inl e ↦ rw e refl
        | inr e ↦ rw e (
            ap (λ o. register_accepted now random grants (clean_name given.client_name) kind o rows)
              (accepted_uris-none w kind entries m bad))
      ],
    )

-- A registration that lists one redirect URI that is not a text, or is one that may not be
-- registered, is refused whole: the answer is an error and the table is as it was.
pub unregisterable_refused :
    (w : Web) (now : ℕ) (random : String) (grants : List GrantRow) (given : ClientRegistration)
    (rows : List ClientRow) {entry : Option String}
    → Memᴰ entry (entries_of given.redirect_uris)
    → Unacceptable w entry
    → (error : RegistrationError) × (register_client w now random grants given rows
        ≡ (refused error, rows))
unfolding register_client
unregisterable_refused w now random grants given rows m bad =
    register_as-refused w now random grants given (application_type_of given.application_type) rows
      m bad
