-- ===== src/Identity/Accounts.antt =====
-- `AuthService.register`. A fresh actor id and a fresh salt are arguments; a set of roles is the
-- list of them in the order of its iteration.
use Prim.Native.String.{count}
use alos_backend.Prelude.{
  String, Option, none, some, List, [], ◌∷◌, true, ◌==◌, string_eq, ltb, or_else, if◌then◌else◌,
  Result, ok, err, pure, gets, or_raise, raise_if, modify, ◌>>=◌, ◌>>◌,
}
use alos_backend.Prelude.Dict.{insert, has_key}
use alos_backend.Authorization.{DataScope}
use alos_backend.Identity.Directory.{
  DirectoryError, Change, add_tenant, add_organization, add_workspace, add_actor, add_membership,
  principal_for, Tenant, Organization, Workspace, Actor, Membership,
}
use alos_backend.Identity.Permissions.{PermissionError, RoleGrant, register_grant}
use alos_backend.Identity.Passwords.{hash_password}
use alos_backend.Identity.Service.{
  Crypto, AccountRecord, AuthService, AuthError, invalid_email, grant_conflict, Auth, Registration,
  Response, serialize_principal, value_or, or_default, scope_of, user_already_exists,
  identity_conflict, invalid_scope_or_identity, weak_password, principal_not_ready,
}

-- A change of the directory whose conflict is passed over, and one whose conflict is raised as
-- another error
abbrev pub changed : Change → AuthService → AuthService
changed change s = record s { directory = (change s.directory).1 }

abbrev pub attempt : Change → Auth (Unit {0})
attempt change = modify (changed change)

abbrev pub outcome_as : AuthError → Result DirectoryError (Unit {0}) → Result AuthError (Unit {0})
outcome_as error (ok done) = ok done
outcome_as error (err _) = err error

abbrev pub change_or : Change → AuthError → Auth (Unit {0})
change_or change error s = (outcome_as error (change s.directory).0, changed change s)

abbrev pub grant_outcome : Result PermissionError (Unit {0}) → Result AuthError (Unit {0})
grant_outcome (ok done) = ok done
grant_outcome (err _) = err grant_conflict

abbrev pub add_grant : RoleGrant → Auth (Unit {0})
add_grant grant s = (
  grant_outcome (register_grant grant s.permissions).0,
  record s { permissions = (register_grant grant s.permissions).1 },
)

-- `for role in roles`
unfoldable pub add_grants : String → String → Registration → List String → Auth (Unit {0})
add_grants tenant_id organization_id payload [] = pure tt
add_grants tenant_id organization_id payload (role ∷ roles) =
    add_grant (record {
      role_id = role;
      tenant_id = tenant_id;
      organization_id = organization_id;
      permission_refs = payload.permissions;
      scope_refs = payload.scopes;
      active = true;
    })
    >> add_grants tenant_id organization_id payload roles

-- `email.split("@", 1)[0]`
abbrev pub before_at : String → String
before_at String.[] = ""
before_at (String.◌∷◌ c s) = if String.◌∷◌ c "" == "@" then "" else String.◌∷◌ c (before_at s)

-- the ids that a registration names, or the defaults
pub record Home : Type 0 where
  pub tenant_id : String
  pub organization_id : String
  pub workspace_id : String

unfoldable pub home_of : Registration → Home
home_of payload = record {
  tenant_id = or_default payload.tenant_id "tenant_default";
  organization_id = or_default payload.organization_id "org_default";
  workspace_id = or_default payload.workspace_id "workspace_default";
}

-- `payload.get(name) or None`
abbrev pub given_or_none : Option String → Option String
given_or_none given = or_else given none

unfoldable pub membership_for : Registration → Home → String → DataScope → Membership
membership_for payload home actor_id data_scope = record {
  actor_id = actor_id;
  tenant_id = home.tenant_id;
  organization_id = home.organization_id;
  workspace_id = home.workspace_id;
  roles = payload.roles;
  permissions = payload.permissions;
  scopes = payload.scopes;
  data_scope = data_scope;
  division_id = given_or_none payload.division_id;
  project_id = given_or_none payload.project_id;
  active = true;
}

abbrev pub tenant_at : Home → Tenant
tenant_at home = record { tenant_id = home.tenant_id; name = home.tenant_id; active = true }

abbrev pub organization_at : Home → Organization
organization_at home = record {
  organization_id = home.organization_id;
  tenant_id = home.tenant_id;
  name = home.organization_id;
  active = true;
}

abbrev pub workspace_at : Home → Workspace
workspace_at home = record {
  workspace_id = home.workspace_id;
  tenant_id = home.tenant_id;
  organization_id = home.organization_id;
  name = home.workspace_id;
  active = true;
}

unfoldable pub actor_for : Registration → Home → String → String → Actor
actor_for payload home actor_id display_name = record {
  actor_id = actor_id;
  tenant_id = home.tenant_id;
  organization_id = home.organization_id;
  display_name = display_name;
  division_id = given_or_none payload.division_id;
  project_id = given_or_none payload.project_id;
  active = true;
}

-- the changes of the directory
unfoldable pub enroll : Registration → Home → String → String → Auth (Unit {0})
enroll payload home actor_id display_name = do
  attempt (add_tenant (tenant_at home))
  attempt (add_organization (organization_at home))
  attempt (add_workspace (workspace_at home))
  change_or (add_actor (actor_for payload home actor_id display_name)) identity_conflict
  data_scope ←
      or_raise (scope_of (value_or "OWN_ASSIGNED" payload.data_scope)) invalid_scope_or_identity
  change_or (add_membership (membership_for payload home actor_id data_scope))
      invalid_scope_or_identity

unfoldable pub new_account : Crypto → String → String → String → String → Home → AccountRecord
unfolding hash_password
new_account crypto email password actor_id salt home = record {
  email = email;
  password_hash = hash_password crypto.derive salt password;
  actor_id = actor_id;
  tenant_id = home.tenant_id;
  organization_id = home.organization_id;
  workspace_id = home.workspace_id;
}

-- the account, once the actor is enrolled
unfoldable pub open_account : AccountRecord → String → String → Auth Response
unfolding serialize_principal
open_account account password display_name = do
  raise_if (ltb (count password) 8) weak_password
  modify (λ s. record s { accounts = insert account.email account s.accounts })
  principal ← gets (λ s. principal_for account.actor_id account.workspace_id s.directory)
  found ← or_raise principal principal_not_ready
  pure (serialize_principal found (some account.email) (some display_name))

unfoldable pub register : Crypto → Registration → String → String → Auth Response
unfolding home_of new_account
register crypto payload actor_id salt = do
  let email = crypto.normal (value_or "" payload.email)
  raise_if (email == "") invalid_email
  exists ← gets (λ s. has_key email s.accounts)
  raise_if exists user_already_exists
  let home = home_of payload
  let display_name = or_default payload.display_name (before_at email)
  let password = or_default payload.password ""
  enroll payload home actor_id display_name
  add_grants home.tenant_id home.organization_id payload payload.roles
  open_account (new_account crypto email password actor_id salt home) password display_name
