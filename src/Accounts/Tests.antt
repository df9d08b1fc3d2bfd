-- ===== src/Accounts/Tests.antt =====
-- Concrete runs of sign-up.
use mcp_ui.Common.{ℕ, ◌≡◌, refl, true, some, [], ◌∷◌, ◌==◌, nat_eq, string_eq, if◌then◌else◌}
use mcp_ui.Common.Rows.{first}
use mcp_ui.Normalize.{Text, Unicode, is_space, trim, trim_start, normalize_username}
use mcp_ui.Tokens.{length}
use mcp_ui.Exec.{ok}
use mcp_ui.Accounts.{
  Account, Passwords, to_account, hash_password, validate_username, validate_password,
  username_pattern, ends_alphanumeric, create_account, verify_credentials,
}
use mcp_ui.Accounts.Signup.{verify_credentials-create_account}

abbrev fold : ℕ → ℕ
fold c = if c == 65 then 97 else c

abbrev unicode : Unicode
unicode = record { nfkc = λ s. s; to_lower_case = fold_all }
  where
    fold_all : Text → Text
    fold_all [] = []
    fold_all (c ∷ s) = fold c ∷ fold_all s

abbrev passwords : Passwords
passwords = record {
  hmac_base64 = λ _ password. if length password == 12 then "twelve" else "other";
  pepper_key = "pepper";
  pepper_version = 1;
  hash = λ _ peppered. peppered;
  verify = λ encoded peppered. some (encoded == peppered);
}

-- ' Abc', and 'abc'.
abbrev typed : Text
typed = 32 ∷ 65 ∷ 98 ∷ 99 ∷ []

abbrev typed_again : Text
typed_again = 97 ∷ 98 ∷ 99 ∷ []

abbrev password : Text
password = 120 ∷ 120 ∷ 120 ∷ 120 ∷ 120 ∷ 120 ∷ 120 ∷ 120 ∷ 120 ∷ 120 ∷ 120 ∷ 120 ∷ []

abbrev account : Account
account = record { id = "acc_1"; username = 65 ∷ 98 ∷ 99 ∷ []; created_at = 1000 }

signed_up :
    (create_account unicode passwords 1000 "acc_1" [] (some typed) (some password) []).0
    ≡ ok account
unfolding create_account validate_username validate_password username_pattern ends_alphanumeric
    hash_password to_account trim trim_start is_space length first
signed_up = refl

same_name : normalize_username unicode typed_again ≡ normalize_username unicode typed
unfolding normalize_username trim trim_start is_space
same_name = refl

hash_verifies : passwords.verify (passwords.hash [] "twelve") "twelve" ≡ some true
hash_verifies = refl

verify_credentials-create_account_example :
    verify_credentials unicode passwords
      (some typed_again)
      (some password)
      (create_account unicode passwords 1000 "acc_1" [] (some typed) (some password) []).1
    ≡ some account
unfolding length
verify_credentials-create_account_example =
    verify_credentials-create_account unicode passwords 1000 "acc_1" [] typed typed_again password
      [] hash_verifies same_name signed_up
