-- ===== src/Identity/Tests.antt =====
-- The theorems at one registration.
use alos_backend.Prelude.{String, ◌≡◌, refl, none, some, [], ◌∷◌, true, ok, or_else}
use alos_backend.Prelude.Dict.{get, insert}
use alos_backend.Authorization.{Principal, own_assigned}
use alos_backend.Identity.Directory.{
  Membership, add_tenant, add_organization, add_workspace, add_actor, add_membership, principal_for,
}
use alos_backend.Identity.Permissions.{register_grant}
use alos_backend.Identity.Passwords.{has_no_dollar, verify_password}
use alos_backend.Identity.Service.{
  Crypto, AccountRecord, AuthService, Registration, Response, serialize_principal, scope_of,
  or_default,
}
use alos_backend.Identity.Accounts.{
  membership_for, enroll, add_grants, open_account, register, actor_for,
}
use alos_backend.Identity.Sessions.{login, whoami, issue_token}
use alos_backend.Identity.Principals.{registrations, new_service, IsWithin, registrations-IsWithin}
use alos_backend.Identity.Tokens.{HaveTokens, login-whoami}
use alos_backend.Identity.Logins.{register-login}

abbrev crypto : Crypto
crypto = record {
  normal = λ email. email;
  derive = λ password salt. password;
  sha256 = λ text. text;
}

abbrev payload : Registration
payload = record {
  email = some "alice@example.com";
  password = some "long enough";
  display_name = some "Alice";
  tenant_id = some "t1";
  organization_id = some "o1";
  workspace_id = some "w1";
  division_id = none;
  project_id = none;
  roles = "analyst" ∷ [];
  permissions = "job.run" ∷ [];
  scopes = "sales" ∷ [];
  data_scope = none;
}

abbrev after : AuthService
after = registrations crypto ((payload, "actor_1", "a1b2") ∷ []) new_service

abbrev alice : Principal
alice = record {
  actor_id = "actor_1";
  tenant_id = "t1";
  organization_id = "o1";
  workspace_id = "w1";
  permissions = "job.run" ∷ [];
  scopes = "sales" ∷ [];
  roles = "analyst" ∷ [];
  data_scope = own_assigned;
  division_id = none;
  project_id = none;
  active = true;
}

alice_known : principal_for "actor_1" "w1" after.directory ≡ some alice
unfolding registrations register principal_for get enroll add_actor add_workspace add_organization
    add_tenant insert or_else actor_for scope_of add_membership membership_for add_grants
    register_grant open_account
alice_known = refl

registrations-IsWithin_example : IsWithin after.directory "actor_1" "w1" alice
registrations-IsWithin_example =
    registrations-IsWithin crypto ((payload, "actor_1", "a1b2") ∷ []) "actor_1" "w1" alice
      alice_known

abbrev answer : Response
answer = serialize_principal alice (some "alice@example.com") (some "Alice")

alice_registered :
    register crypto payload "actor_1" "a1b2" new_service
    ≡ (ok answer, (register crypto payload "actor_1" "a1b2" new_service).1)
unfolding register principal_for get enroll add_actor add_workspace add_organization add_tenant
    insert or_else actor_for scope_of add_membership membership_for add_grants register_grant
    open_account
alice_registered = refl

salt_plain : has_no_dollar "a1b2" ≡ true
unfolding has_no_dollar
salt_plain = refl

register-login_example :
    (token : String) × (login crypto payload.email (or_default payload.password "") (
        registrations crypto
          ((payload, "actor_2", "c3") ∷ [])
          (register crypto payload "actor_1" "a1b2" new_service).1)
      ≡ (
        ok (record answer {
          display_name = none;
          token_type = some "bearer";
          access_token = some token;
        }),
        registrations crypto
            ((payload, "actor_2", "c3") ∷ [])
            (register crypto payload "actor_1" "a1b2" new_service).1,
      ))
register-login_example =
    register-login crypto payload "actor_1" "a1b2" new_service
      (register crypto payload "actor_1" "a1b2" new_service).1 answer
      ((payload, "actor_2", "c3") ∷ []) salt_plain alice_registered

abbrev account_of : String → String → AccountRecord
account_of email actor_id = record {
  email = email;
  password_hash = "pbkdf2_sha256$a1b2$long enough";
  actor_id = actor_id;
  tenant_id = "t1";
  organization_id = "o1";
  workspace_id = "w1";
}

abbrev alice_member : Membership
alice_member = record {
  actor_id = "actor_1";
  tenant_id = "t1";
  organization_id = "o1";
  workspace_id = "w1";
  roles = "analyst" ∷ [];
  permissions = "job.run" ∷ [];
  scopes = "sales" ∷ [];
  data_scope = own_assigned;
  division_id = none;
  project_id = none;
  active = true;
}

abbrev both : AuthService
both = record {
  directory = record new_service.directory { memberships = (("actor_1", "w1"), alice_member) ∷ [] };
  permissions = [];
  accounts =
      ("bob@example.com", account_of "bob@example.com" "actor_2")
      ∷ ("alice@example.com", account_of "alice@example.com" "actor_1")
      ∷ [];
}

abbrev logged_in : Response
logged_in = record (serialize_principal alice (some "alice@example.com") none) {
  token_type = some "bearer";
  access_token = some "alos_alice@example.com:actor_1:w1:t1";
}

alice_logged_in : login crypto (some "alice@example.com") "long enough" both ≡ (ok logged_in, both)
unfolding principal_for get login serialize_principal verify_password issue_token
alice_logged_in = refl

both-HaveTokens : HaveTokens crypto both.accounts
unfolding issue_token
both-HaveTokens = ((λ _. refl, (λ h. cc, tt)), ((λ h. cc, (λ _. refl, tt)), tt))

login-whoami_example :
    (token : String) × (logged_in.access_token ≡ some token)
    × (logged_in.token_type ≡ some "bearer")
    × (whoami crypto token both
        ≡ (ok (record logged_in { token_type = none; access_token = none }), both))
    × (both ≡ both)
login-whoami_example =
    login-whoami crypto (some "alice@example.com") "long enough" both both logged_in both-HaveTokens
      alice_logged_in
