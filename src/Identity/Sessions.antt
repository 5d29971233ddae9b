-- ===== src/Identity/Sessions.antt =====
-- The methods of `AuthService` that know an account: `login` and `whoami`.
use alos_backend.Prelude.{
  join, String, Option, none, some, [], ◌∷◌, ◌==◌, string_eq, if◌then◌else◌, pure, gets, or_raise,
  raise_if, ◌>>=◌, ◌>>◌,
}
use alos_backend.Prelude.Dict.{Dict, get}
use alos_backend.Identity.Directory.{principal_for}
use alos_backend.Identity.Passwords.{verify_password}
use alos_backend.Identity.Service.{
  Crypto, AccountRecord, account_disabled, Auth, Response, serialize_principal, value_or,
  invalid_credentials, missing_token, invalid_token,
}

-- `_issue_token`
unfoldable pub issue_token : Crypto → AccountRecord → String
issue_token crypto account = join "alos_" (
    crypto.sha256 (
      join account.email (
        join ":" (
          join account.actor_id
            (join ":" (join account.workspace_id (join ":" account.tenant_id)))))))

abbrev pub checked_account : Crypto → String → Option AccountRecord → Option AccountRecord
checked_account crypto password none = none
checked_account crypto password (some account) =
    if verify_password crypto.derive password account.password_hash then some account else none

unfoldable pub login : Crypto → Option String → String → Auth Response
unfolding serialize_principal issue_token
login crypto email password = do
  found ← gets (λ s. get (crypto.normal (value_or "" email)) s.accounts)
  account ← or_raise (checked_account crypto password found) invalid_credentials
  principal ← gets (λ s. principal_for account.actor_id account.workspace_id s.directory)
  known ← or_raise principal account_disabled
  pure (record (serialize_principal known (some account.email) none) {
    token_type = some "bearer";
    access_token = some (issue_token crypto account);
  })

-- `_resolve_account_from_token`
unfoldable pub resolve_account : Crypto → String → Dict String AccountRecord → Option AccountRecord
unfolding issue_token
resolve_account crypto token [] = none
resolve_account crypto token ((email, account) ∷ rest) =
    let later = resolve_account crypto token rest in
    if issue_token crypto account == token then some account else later

unfoldable pub whoami : Crypto → String → Auth Response
unfolding serialize_principal resolve_account
whoami crypto token = do
  raise_if (token == "") missing_token
  found ← gets (λ s. resolve_account crypto token s.accounts)
  account ← or_raise found invalid_token
  principal ← gets (λ s. principal_for account.actor_id account.workspace_id s.directory)
  known ← or_raise principal account_disabled
  pure (serialize_principal known (some account.email) none)
