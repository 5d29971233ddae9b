-- ===== src/Identity/Logins.antt =====
-- Logins after registrations.
use alos_backend.Prelude.{
  String, ◌≡◌, refl, ◌∙◌, ap, Option, none, some, List, true, string_eq, key2_eq, ok,
}
use alos_backend.Identity.Directory.{Membership, principal_for, principal_of}
use alos_backend.Identity.Passwords.{has_no_dollar, hash_password, verify_password, verify-hash}
use alos_backend.Identity.Service.{
  Crypto, AccountRecord, AuthService, Registration, Response, serialize_principal, value_or,
  or_default,
}
use alos_backend.Identity.Accounts.{home_of, new_account, register}
use alos_backend.Identity.Sessions.{login, issue_token}
use alos_backend.Identity.Enrolled.{IsServed}
use alos_backend.Identity.Principals.{registrations, registrations-IsServed}
use alos_backend.Identity.Registered.{IsAccount, registered}

kept-IsAccount :
    (crypto : Crypto) (email : String) (account : AccountRecord) (m : Membership)
    (s s' : AuthService)
    → IsServed s s'
    → IsAccount crypto email account m s
    → IsAccount crypto email account m s'
kept-IsAccount crypto email account m s s' served a = record {
  stored = served.1 email account a.stored;
  same_email = a.same_email;
  member = served.0.0.memberships (account.actor_id, account.workspace_id) m a.member;
  is_active = a.is_active;
}

account-login :
    (crypto : Crypto) (given : Option String) (password salt : String) (account : AccountRecord)
    (m : Membership) (s : AuthService)
    → IsAccount crypto (crypto.normal (value_or "" given)) account m s
    → account.password_hash ≡ hash_password crypto.derive salt password
    → has_no_dollar salt ≡ true
    → login crypto given password s ≡ (
      ok (record (serialize_principal (principal_of m) (some account.email) none) {
        token_type = some "bearer";
        access_token = some (issue_token crypto account);
      }),
      s,
    )
unfolding login principal_for
account-login crypto given password salt account m s a hashed fresh =
    let verified : verify_password crypto.derive password account.password_hash ≡ true =
      ap (verify_password crypto.derive password) hashed
      ∙ verify-hash crypto.derive salt password fresh in
    rw (a.stored, verified, a.member, a.is_active) refl

-- Where a registration gives an answer, and its salt has no `$`, the same email and password log
-- in after any further registrations: the login changes nothing and gives that answer with the
-- account's token, of the type bearer, and without the display name.
pub register-login :
    (crypto : Crypto) (payload : Registration) (actor_id salt : String) (s s' : AuthService)
    (body : Response) (further : List (Registration × String × String))
    → has_no_dollar salt ≡ true
    → register crypto payload actor_id salt s ≡ (ok body, s')
    → (token : String) × (login crypto payload.email
          (or_default payload.password "")
          (registrations crypto further s')
        ≡ (
          ok (record body {
            display_name = none;
            token_type = some "bearer";
            access_token = some token;
          }),
          registrations crypto further s',
        ))
unfolding new_account serialize_principal
register-login crypto payload actor_id salt s s' body further fresh h =
    let (m, account_at, answer) = registered crypto payload actor_id salt s s' body h in
    let email = crypto.normal (value_or "" payload.email) in
    let password = or_default payload.password "" in
    let account = new_account crypto email password actor_id salt (home_of payload) in
    let final = registrations crypto further s' in
    let still =
      kept-IsAccount crypto email account m s' final (registrations-IsServed crypto further s')
        account_at in
    (
      issue_token crypto account,
      account-login crypto payload.email password salt account m final still refl fresh
          ∙ ap
              (λ (b : Response). (
                ok (record b {
                  display_name = none;
                  token_type = some "bearer";
                  access_token = some (issue_token crypto account);
                }),
                final,
              ))
              answer,
    )
