-- ===== src/Identity/Service.antt =====
-- The records and the state of `AuthService`, and how a principal is shown. Its libraries are
-- arguments: what an email is brought to by `strip` and `lower`, the key derivation and the digest.
use alos_backend.Prelude.{
  String, Option, none, some, List, Bool, ◌==◌, string_eq, or_else, if◌then◌else◌, Exec,
}
use alos_backend.Prelude.Dict.{Dict}
use alos_backend.Prelude.Sets.{distinct, text_before}
use alos_backend.Prelude.Sorting.{sort_by}
use alos_backend.Authorization.{Principal, DataScope, company, division, project, own_assigned}
use alos_backend.Identity.Directory.{Directory}
use alos_backend.Identity.Permissions.{Grants}

pub record Crypto : Type 0 where
  pub normal : String → String
  pub derive : String → String → String
  pub sha256 : String → String

pub record AccountRecord : Type 0 where
  pub email : String
  pub password_hash : String
  pub actor_id : String
  pub tenant_id : String
  pub organization_id : String
  pub workspace_id : String

pub record AuthService : Type 0 where
  pub directory : Directory
  pub permissions : Grants
  pub accounts : Dict String AccountRecord

-- Where `AuthService` raises; `grant_conflict` is the error of the permission registry, which it
-- does not catch.
pub data AuthError : Type 0 where
  invalid_email user_already_exists identity_conflict invalid_scope_or_identity : AuthError
  grant_conflict weak_password principal_not_ready invalid_credentials : AuthError
  account_disabled missing_token invalid_token : AuthError

abbrev pub Auth : Type 0 → Type 0
Auth A = Exec AuthService AuthError A

-- The payload of a registration, with its missing members.
pub record Registration : Type 0 where
  pub email : Option String
  pub password : Option String
  pub display_name : Option String
  pub tenant_id : Option String
  pub organization_id : Option String
  pub workspace_id : Option String
  pub division_id : Option String
  pub project_id : Option String
  pub roles : List String
  pub permissions : List String
  pub scopes : List String
  pub data_scope : Option String

pub record Response : Type 0 where
  pub actor_id : String
  pub tenant_id : String
  pub organization_id : String
  pub workspace_id : String
  pub division_id : Option String
  pub project_id : Option String
  pub permissions : List String
  pub scopes : List String
  pub roles : List String
  pub data_scope : DataScope
  pub active : Bool
  pub email : Option String
  pub display_name : Option String
  pub token_type : Option String
  pub access_token : Option String

-- `sorted(set)`
abbrev pub sorted : List String → List String
sorted xs = sort_by text_before (distinct xs)

unfoldable pub serialize_principal : Principal → Option String → Option String → Response
serialize_principal principal email display_name = record {
  actor_id = principal.actor_id;
  tenant_id = principal.tenant_id;
  organization_id = principal.organization_id;
  workspace_id = principal.workspace_id;
  division_id = principal.division_id;
  project_id = principal.project_id;
  permissions = sorted principal.permissions;
  scopes = sorted principal.scopes;
  roles = sorted principal.roles;
  data_scope = principal.data_scope;
  active = principal.active;
  email = email;
  display_name = display_name;
  token_type = none;
  access_token = none;
}

abbrev pub value_or : String → Option String → String
value_or fallback none = fallback
value_or fallback (some value) = value

-- `payload.get(name) or fallback`
abbrev pub or_default : Option String → String → String
or_default given fallback = value_or fallback (or_else given (some fallback))

-- `DataScope(text)`
unfoldable pub scope_of : String → Option DataScope
scope_of text =
    if text == "COMPANY"
    then some company
    else if text == "DIVISION"
    then some division
    else if text == "PROJECT"
    then some project
    else if text == "OWN_ASSIGNED"
    then some own_assigned
    else none
