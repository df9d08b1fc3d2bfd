-- ===== src/Accounts.antt =====
-- server/src/domain/accounts.ts and server/src/password.ts: sign-up and the check of credentials.
-- Argon2 and HMAC are parameters; a value that is not a text is none. A time of creation is kept as
-- a number.
pub mod Signup
mod Tests
use mcp_ui.Common.{
  ℕ, ◌+◌, String, Bool, true, false, ◌&&◌, ◌||◌, not, Option, none, some, List, [], ◌∷◌, leb, ltb,
  ◌==◌, nat_eq, string_eq, list_eq, if◌then◌else◌,
}
use mcp_ui.Common.Rows.{first}
use mcp_ui.Normalize.{Text, Unicode, trim, normalize_username}
use mcp_ui.Tokens.{length}
use mcp_ui.Errors.{
  Failure, validation_failed, username_taken, app, app_error, unique_violation, throw_field,
}
use mcp_ui.Exec.{Result, ok, err, Exec}

pub record AccountRow : Type 0 where
  pub id : String
  pub username : Text
  pub normalized_username : Text
  pub password_hash : String
  pub password_pepper_version : ℕ
  pub created_at : ℕ

pub record Account : Type 0 where
  pub id : String
  pub username : Text
  pub created_at : ℕ

unfoldable pub to_account : AccountRow → Account
to_account row = record { id = row.id; username = row.username; created_at = row.created_at }

-- Argon2id over an HMAC under the pepper. `hash` draws its salt at random; `verify` is none where it
-- throws.
pub record Passwords : Type 0 where
  pub hmac_base64 : String → Text → String
  pub pepper_key : String
  pub pepper_version : ℕ
  pub hash : Text → String → String
  pub verify : String → String → Option Bool

-- `peppered`
abbrev pub peppered : Passwords → Text → String
peppered p password = p.hmac_base64 p.pepper_key password

pub record PasswordHash : Type 0 where
  pub encoded : String
  pub pepper_version : ℕ

-- `hashPassword`
unfoldable pub hash_password : Passwords → Text → Text → PasswordHash
hash_password p salt password = record {
  encoded = p.hash salt (peppered p password);
  pepper_version = p.pepper_version;
}

abbrev or_false : Option Bool → Bool
or_false none = false
or_false (some b) = b

-- `verifyPassword`
unfoldable pub verify_password : Passwords → String → Text → Bool
verify_password p encoded password = or_false (p.verify encoded (peppered p password))

abbrev pub username_min : ℕ
username_min = 3

abbrev pub username_max : ℕ
username_max = 32

abbrev pub password_min : ℕ
password_min = 12

abbrev pub password_max : ℕ
password_max = 128

abbrev pub is_alphanumeric : ℕ → Bool
is_alphanumeric c = (leb 65 c && leb c 90) || (leb 97 c && leb c 122) || (leb 48 c && leb c 57)

-- `[A-Za-z0-9._-]`
abbrev pub is_username_unit : ℕ → Bool
is_username_unit c = is_alphanumeric c || c == 46 || c == 95 || c == 45

-- `[A-Za-z0-9._-]*[A-Za-z0-9]$`
unfoldable pub ends_alphanumeric : Text → Bool
ends_alphanumeric [] = false
ends_alphanumeric (c ∷ []) = is_alphanumeric c
ends_alphanumeric (c ∷ d ∷ s) = is_username_unit c && ends_alphanumeric (d ∷ s)

-- `USERNAME_PATTERN`
unfoldable pub username_pattern : Text → Bool
username_pattern [] = false
username_pattern (c ∷ []) = is_alphanumeric c
username_pattern (c ∷ d ∷ s) = is_alphanumeric c && ends_alphanumeric (d ∷ s)

-- `validateUsername`
unfoldable pub validate_username : Option Text → Result Text
validate_username none = err (throw_field validation_failed "Username is required." "username")
validate_username (some raw) =
    let username = trim raw in
    if ltb (length username) username_min || ltb username_max (length username)
    then err
        (throw_field validation_failed "Username must be between 3 and 32 characters." "username")
    else (if not (username_pattern username)
        then err (
            throw_field validation_failed
              "Username may use letters, digits, dots, underscores and hyphens, and must start and end with a letter or digit."
              "username")
        else ok username)

-- `validatePassword`
unfoldable pub validate_password : Option Text → Result Text
validate_password none = err (throw_field validation_failed "Password is required." "password")
validate_password (some raw) =
    if ltb (length raw) password_min || ltb password_max (length raw)
    then err
        (throw_field validation_failed "Password must be between 12 and 128 characters." "password")
    else ok raw

abbrev pub named : Text → AccountRow → Bool
named normalized row = row.normalized_username == normalized

-- INSERT … ON CONFLICT (normalized_username) DO NOTHING RETURNING, by the rows that the new one
-- would clash with; a taken id is a violation that nothing handles.
abbrev pub insert_account :
    AccountRow → Option AccountRow → Option AccountRow → Exec (List AccountRow) Account
insert_account row (some taken) clash rows =
    (err (app (app_error username_taken none (some "username"))), rows)
insert_account row none (some clash) rows = (err unique_violation, rows)
insert_account row none none rows = (ok (to_account row), row ∷ rows)

abbrev pub new_account : Unicode → Passwords → ℕ → String → Text → Text → Text → AccountRow
new_account u p now id salt username password =
    let h = hash_password p salt password in
    record {
      id = id;
      username = username;
      normalized_username = normalize_username u username;
      password_hash = h.encoded;
      password_pepper_version = h.pepper_version;
      created_at = now;
    }

abbrev pub create_validated :
    Unicode
    → Passwords
    → ℕ
    → String
    → Text
    → Result Text
    → Result Text
    → Exec (List AccountRow) Account
create_validated u p now id salt (err e) password rows = (err e, rows)
create_validated u p now id salt (ok username) (err e) rows = (err e, rows)
create_validated u p now id salt (ok username) (ok password) rows =
    let row = new_account u p now id salt username password in
    insert_account row (first (named row.normalized_username) rows) (first (λ r. r.id == id) rows)
      rows

-- `createAccount`; the id and the salt are drawn at random.
unfoldable pub create_account :
    Unicode
    → Passwords
    → ℕ
    → String
    → Text
    → Option Text
    → Option Text
    → Exec (List AccountRow) Account
create_account u p now id salt raw_username raw_password =
    create_validated u p now id salt (validate_username raw_username)
      (validate_password raw_password)

-- The row's password, or the decoy's, which is checked for the time that it takes.
abbrev pub account_checked : Passwords → Text → Option AccountRow → Option Account
account_checked p password none = none
account_checked p password (some row) =
    if not (verify_password p row.password_hash password) then none else some (to_account row)

-- `verifyCredentials`
unfoldable pub verify_credentials :
    Unicode → Passwords → Option Text → Option Text → List AccountRow → Option Account
verify_credentials u p none password rows = none
verify_credentials u p (some username) none rows = none
verify_credentials u p (some username) (some password) rows =
    account_checked p password (first (named (normalize_username u username)) rows)

abbrev account_of : Option AccountRow → Option Account
account_of none = none
account_of (some row) = some (to_account row)

-- `getAccount`
unfoldable pub get_account : String → List AccountRow → Option Account
get_account account_id rows = account_of (first (λ r. r.id == account_id) rows)
