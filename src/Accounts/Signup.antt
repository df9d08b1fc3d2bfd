-- ===== src/Accounts/Signup.antt =====
-- server/src/domain/accounts.ts: what sign-up keeps, and that it can be signed in with.
use mcp_ui.Common.{
  ℕ, ◌≤◌, ◌≡◌, ◌≢◌, refl, sym, ap, ◌∙◌, String, true, false, ◌||◌, inl, inr, Option, none, some,
  List, ◌∷◌, ltb, ◌==◌, list_eq, nat_eq, units_eq, string_eq, beq_self, arith, Bool-cases, subst,
}
use mcp_ui.Common.Rows.{first, All}
use mcp_ui.Common.Rows.Laws.{first-none, All-of, All-at}
use mcp_ui.Common.Rows.Keys.{Distinct}
use mcp_ui.Normalize.{Text, Unicode, trim, normalize_username}
use mcp_ui.Normalize.Laws.{normalize_username-trim}
use mcp_ui.Tokens.{length}
use mcp_ui.Exec.{Result, ok, err}
use mcp_ui.Accounts.{
  AccountRow, Account, Passwords, to_account, peppered, hash_password, verify_password,
  username_min, username_max, password_min, password_max, username_pattern, validate_username,
  validate_password, named, insert_account, new_account, create_validated, create_account,
  verify_credentials,
}

-- A username as sign-up lets it be: short, of the characters of the pattern, and stored with its
-- folded form.
pub record RowIsValid (u : Unicode) (row : AccountRow) : Type 0 where
  pub long : username_min ≤ length row.username
  pub short : length row.username ≤ username_max
  pub shape : username_pattern row.username ≡ true
  pub folded : row.normalized_username ≡ normalize_username u row.username

pub record IsValid (u : Unicode) (rows : List AccountRow) : Type 0 where
  pub each : All (RowIsValid u) rows
  pub names : Distinct (λ row. row.normalized_username) rows
  pub ids : Distinct (λ row. row.id) rows

pub record IsUsername (name : Text) : Type 0 where
  pub long : username_min ≤ length name
  pub short : length name ≤ username_max
  pub shape : username_pattern name ≡ true

ok_inj : {A : Type 0} {a b : A} → ok a ≡ ok b → a ≡ b
ok_inj e = cc

validated-IsUsername :
    (raw : Option Text) {name : Text} → validate_username raw ≡ ok name → IsUsername name
unfolding validate_username
validated-IsUsername none e = absurd cc
validated-IsUsername (some raw) e =
    let n = length (trim raw) in
    elim (Bool-cases (ltb n username_min || ltb username_max n)) [
      | inl bad ↦ absurd (ground arith)
      | inr fits ↦ elim (Bool-cases (username_pattern (trim raw))) [
        | inr odd ↦ absurd (ground arith)
        | inl shape ↦
            subst IsUsername (ok_inj (rw (fits, shape) at e))
              (record { long = ground arith; short = ground arith; shape = shape })
      ]
    ]

module _ (u : Unicode) (p : Passwords) (now : ℕ) (id : String) (salt : Text) where
  insert-IsValid :
      (username password : Text) (taken clash : Option AccountRow) (rows : List AccountRow)
      → IsUsername username
      → let row = new_account u p now id salt username password in
        first (named row.normalized_username) rows ≡ taken
        → first (λ r. r.id == id) rows ≡ clash
        → IsValid u rows
        → IsValid u (insert_account row taken clash rows).1
  insert-IsValid username password (some _) clash rows good t c h = h
  insert-IsValid username password none (some _) rows good t c h = h
  insert-IsValid username password none none rows good t c h =
      let normalized = normalize_username u username in
      record {
        each = (
          record { long = good.long; short = good.short; shape = good.shape; folded = refl },
          h.each,
        );
        names = (
          All-of (λ r. r.normalized_username ≢ normalized) rows
              (λ r m e. absurd (
                differs_name r e (
                  All-at (λ r. named normalized r ≡ false) rows
                    (first-none (named normalized) rows t) m))),
          h.names,
        );
        ids = (
          All-of (λ r. r.id ≢ id) rows
              (λ r m e. absurd (
                differs_id r e (
                  All-at (λ r. (r.id == id) ≡ false) rows
                    (first-none (λ (r : AccountRow). r.id == id) rows c) m))),
          h.ids,
        );
      }
    where
      differs_name :
          (r : AccountRow)
          → r.normalized_username ≡ normalize_username u username
          → ¬ (named (normalize_username u username) r ≡ false)
      differs_name r e f =
          ground (arith, units_eq r.normalized_username (normalize_username u username))

      differs_id : (r : AccountRow) → r.id ≡ id → ¬ ((r.id == id) ≡ false)
      differs_id r e f = ground (arith, beq_self id, f, e)

  create_validated-IsValid :
      (raw : Option Text) (name password : Result Text) (rows : List AccountRow)
      → validate_username raw ≡ name
      → IsValid u rows
      → IsValid u (create_validated u p now id salt name password rows).1
  create_validated-IsValid raw (err e) password rows v h = h
  create_validated-IsValid raw (ok name) (err e) rows v h = h
  create_validated-IsValid raw (ok name) (ok password) rows v h =
      insert-IsValid name password _ _ rows (validated-IsUsername raw v) refl refl h

  -- Sign-up keeps the table of accounts valid: distinct ids, distinct folded usernames, and usernames
  -- of 3 to 32 characters in the form of the pattern.
  pub create_account-IsValid :
      (username password : Option Text) (rows : List AccountRow)
      → IsValid u rows
      → IsValid u (create_account u p now id salt username password rows).1
  unfolding create_account
  create_account-IsValid username password rows h =
      create_validated-IsValid username (validate_username username) (validate_password password)
        rows refl h

  inserted-first :
      (username password : Text) (taken clash : Option AccountRow) (rows : List AccountRow)
      {account : Account}
      → let row = new_account u p now id salt username password in
        (insert_account row taken clash rows).0 ≡ ok account
        → (account ≡ to_account row) × ((insert_account row taken clash rows).1 ≡ row ∷ rows)
  inserted-first username password (some _) clash rows e = absurd cc
  inserted-first username password none (some _) rows e = absurd cc
  inserted-first username password none none rows e = (sym (ok_inj e), refl)

  found :
      (username password : Text) (again : Text) (rows : List AccountRow)
      → p.verify (p.hash salt (peppered p password)) (peppered p password) ≡ some true
      → normalize_username u again ≡ normalize_username u username
      → let row = new_account u p now id salt username password in
        verify_credentials u p (some again) (some password) (row ∷ rows) ≡ some (to_account row)
  unfolding verify_credentials first verify_password hash_password
  found username password again rows law same =
      rw (same, beq_self (normalize_username u username)) (rw law refl)

  validated-trim :
      (raw : Option Text) {name : Text}
      → validate_username raw ≡ ok name
      → (text : Text) × (raw ≡ some text) × (name ≡ trim text)
  unfolding validate_username
  validated-trim none e = absurd cc
  validated-trim (some raw) e =
      let n = length (trim raw) in
      elim (Bool-cases (ltb n username_min || ltb username_max n)) [
        | inl bad ↦ absurd (ground arith)
        | inr fits ↦ elim (Bool-cases (username_pattern (trim raw))) [
          | inr odd ↦ absurd (ground arith)
          | inl shape ↦ (raw, refl, sym (ok_inj (rw (fits, shape) at e)))
        ]
      ]

  validated-same :
      (raw : Text) {password : Text} → validate_password (some raw) ≡ ok password → password ≡ raw
  unfolding validate_password
  validated-same raw e =
      elim (Bool-cases (ltb (length raw) password_min || ltb password_max (length raw))) [
        | inl bad ↦ absurd (ground arith)
        | inr fits ↦ sym (ok_inj (rw fits at e))
      ]

  validated-sign_in :
      (raw again password : Text) (name kept : Result Text) (rows : List AccountRow)
      {account : Account}
      → p.verify (p.hash salt (peppered p password)) (peppered p password) ≡ some true
      → validate_username (some raw) ≡ name
      → validate_password (some password) ≡ kept
      → normalize_username u again ≡ normalize_username u raw
      → (create_validated u p now id salt name kept rows).0 ≡ ok account
      → verify_credentials u p
          (some again)
          (some password)
          (create_validated u p now id salt name kept rows).1
        ≡ some account
  validated-sign_in raw again password (err f) kept rows law v w same e = absurd cc
  validated-sign_in raw again password (ok name) (err f) rows law v w same e = absurd cc
  validated-sign_in raw again password (ok name) (ok kept) rows law v w same e =
      let (text, is_raw, trimmed) = validated-trim (some raw) v in
      let name_eq : normalize_username u again ≡ normalize_username u name =
        same
        ∙ sym (
            ap (normalize_username u) (trimmed ∙ ap trim (sym (text_inj is_raw)))
            ∙ normalize_username-trim u raw) in
      let password_eq : kept ≡ password = validated-same password w in
      let (made, after) = inserted-first name kept _ _ rows e in
      rw after (
        rw made (
          subst
            (λ q.
              verify_credentials u p (some again) (some password)
                (new_account u p now id salt name q ∷ rows)
              ≡ some (to_account (new_account u p now id salt name q)))
            (sym password_eq) (found name password again rows law name_eq)))
    where
      text_inj : {a b : Text} → some a ≡ some b → a ≡ b
      text_inj e = cc

  -- Whoever has just signed up can sign in: with the same password, and with any text that folds to
  -- the same username, the check of credentials gives the new account. The password hash verifies
  -- the password that it was made of.
  pub verify_credentials-create_account :
      (username again password : Text) (rows : List AccountRow) {account : Account}
      → p.verify (p.hash salt (peppered p password)) (peppered p password) ≡ some true
      → normalize_username u again ≡ normalize_username u username
      → let (answer, rows') = create_account u p now id salt (some username) (some password) rows in
        answer ≡ ok account
        → verify_credentials u p (some again) (some password) rows' ≡ some account
  unfolding create_account
  verify_credentials-create_account username again password rows law same e =
      validated-sign_in username again password (validate_username (some username))
        (validate_password (some password)) rows law refl refl same e
