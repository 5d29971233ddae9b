-- ===== src/Identity/Directory.antt =====
-- `IdentityDirectory` and the records of identity/__init__.py. A set is a list.
use alos_backend.Prelude.{
  String, Option, none, some, List, Bool, true, false, not, ◌&&◌, ◌==◌, string_eq, Key2, key2_eq,
  if◌then◌else◌, Exec, gets, raise_if, modify, ◌>>=◌, ◌>>◌,
}
use alos_backend.Prelude.Dict.{Dict, get, insert, has_key}
use alos_backend.Authorization.{Principal, DataScope}

pub record Tenant : Type 0 where
  pub tenant_id : String
  pub name : String
  pub active : Bool

pub record Organization : Type 0 where
  pub organization_id : String
  pub tenant_id : String
  pub name : String
  pub active : Bool

pub record Workspace : Type 0 where
  pub workspace_id : String
  pub tenant_id : String
  pub organization_id : String
  pub name : String
  pub active : Bool

pub record Actor : Type 0 where
  pub actor_id : String
  pub tenant_id : String
  pub organization_id : String
  pub display_name : String
  pub division_id : Option String
  pub project_id : Option String
  pub active : Bool

pub record Membership : Type 0 where
  pub actor_id : String
  pub tenant_id : String
  pub organization_id : String
  pub workspace_id : String
  pub roles : List String
  pub permissions : List String
  pub scopes : List String
  pub data_scope : DataScope
  pub division_id : Option String
  pub project_id : Option String
  pub active : Bool

pub record Directory : Type 0 where
  pub tenants : Dict String Tenant
  pub organizations : Dict String Organization
  pub workspaces : Dict String Workspace
  pub actors : Dict String Actor
  pub memberships : Dict Key2 Membership

-- Where an `IdentityConflictError` is raised
pub data DirectoryError : Type 0 where
  no_active_tenant workspace_boundary actor_boundary membership_boundary already_exists :
      DirectoryError

abbrev pub Change : Type 0
Change = Exec Directory DirectoryError (Unit {0})

unfoldable pub add_tenant : Tenant → Change
add_tenant tenant = do
  exists ← gets (λ d. has_key tenant.tenant_id d.tenants)
  raise_if exists already_exists
  modify (λ d. record d { tenants = insert tenant.tenant_id tenant d.tenants })

abbrev pub is_active_tenant : Option Tenant → Bool
is_active_tenant none = false
is_active_tenant (some tenant) = tenant.active

unfoldable pub add_organization : Organization → Change
add_organization organization = do
  tenant ← gets (λ d. get organization.tenant_id d.tenants)
  raise_if (not (is_active_tenant tenant)) no_active_tenant
  exists ← gets (λ d. has_key organization.organization_id d.organizations)
  raise_if exists already_exists
  modify (λ d. record d {
    organizations = insert organization.organization_id organization d.organizations;
  })

-- an active organization of the tenant
abbrev pub is_of_tenant : String → Option Organization → Bool
is_of_tenant tenant_id none = false
is_of_tenant tenant_id (some organization) =
    organization.active && organization.tenant_id == tenant_id

unfoldable pub add_workspace : Workspace → Change
add_workspace workspace = do
  organization ← gets (λ d. get workspace.organization_id d.organizations)
  raise_if (not (is_of_tenant workspace.tenant_id organization)) workspace_boundary
  exists ← gets (λ d. has_key workspace.workspace_id d.workspaces)
  raise_if exists already_exists
  modify (λ d. record d { workspaces = insert workspace.workspace_id workspace d.workspaces })

unfoldable pub add_actor : Actor → Change
add_actor actor = do
  organization ← gets (λ d. get actor.organization_id d.organizations)
  raise_if (not (is_of_tenant actor.tenant_id organization)) actor_boundary
  exists ← gets (λ d. has_key actor.actor_id d.actors)
  raise_if exists already_exists
  modify (λ d. record d { actors = insert actor.actor_id actor d.actors })

abbrev pub admits_workspace : Membership → Option Workspace → Bool
admits_workspace membership none = false
admits_workspace membership (some workspace) =
    workspace.active
    && (workspace.tenant_id == membership.tenant_id
        && workspace.organization_id == membership.organization_id)

abbrev pub admits_actor : Membership → Option Actor → Bool
admits_actor membership none = false
admits_actor membership (some actor) =
    actor.active
    && (actor.tenant_id == membership.tenant_id
        && actor.organization_id == membership.organization_id)

abbrev pub member_key : Membership → Key2
member_key membership = (membership.actor_id, membership.workspace_id)

unfoldable pub add_membership : Membership → Change
add_membership membership = do
  workspace ← gets (λ d. get membership.workspace_id d.workspaces)
  actor ← gets (λ d. get membership.actor_id d.actors)
  raise_if (not (admits_workspace membership workspace && admits_actor membership actor))
      membership_boundary
  exists ← gets (λ d. has_key (member_key membership) d.memberships)
  raise_if exists already_exists
  modify (λ d. record d { memberships = insert (member_key membership) membership d.memberships })

abbrev pub principal_of : Membership → Principal
principal_of membership = record {
  actor_id = membership.actor_id;
  tenant_id = membership.tenant_id;
  organization_id = membership.organization_id;
  workspace_id = membership.workspace_id;
  permissions = membership.permissions;
  scopes = membership.scopes;
  roles = membership.roles;
  data_scope = membership.data_scope;
  division_id = membership.division_id;
  project_id = membership.project_id;
  active = true;
}

abbrev pub principal_from : Option Membership → Option Principal
principal_from none = none
principal_from (some membership) =
    if membership.active then some (principal_of membership) else none

unfoldable pub principal_for : String → String → Directory → Option Principal
principal_for actor_id workspace_id d = principal_from (get (actor_id, workspace_id) d.memberships)
