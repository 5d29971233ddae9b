-- ===== src/Identity/Permissions.antt =====
-- `PermissionRegistry`.
use alos_backend.Prelude.{
  String, Option, none, some, List, [], ◌∷◌, ◌++◌, Bool, true, false, not, ◌&&◌, ◌==◌, string_eq,
  Key3, key3_eq, is_subset, if◌then◌else◌, Exec, pure, raise, gets, ◌>>=◌, modify,
}
use alos_backend.Prelude.Dict.{Dict, get, insert}

pub record RoleGrant : Type 0 where
  pub role_id : String
  pub tenant_id : String
  pub organization_id : String
  pub permission_refs : List String
  pub scope_refs : List String
  pub active : Bool

abbrev pub Grants : Type 0
Grants = Dict Key3 RoleGrant

pub data PermissionError : Type 0 where
  grant_exists : PermissionError

abbrev pub grant_key : RoleGrant → Key3
grant_key grant = (grant.tenant_id, grant.organization_id, grant.role_id)

-- equality of sets
abbrev pub same_set : List String → List String → Bool
same_set xs ys = is_subset xs ys && is_subset ys xs

abbrev pub same_bool : Bool → Bool → Bool
same_bool true b = b
same_bool false b = not b

-- `existing == grant`
unfoldable pub same_grant : RoleGrant → RoleGrant → Bool
same_grant a b =
    (a.role_id == b.role_id
      && (a.tenant_id == b.tenant_id && a.organization_id == b.organization_id))
    && (same_set a.permission_refs b.permission_refs
        && (same_set a.scope_refs b.scope_refs && same_bool a.active b.active))

abbrev pub register_over : RoleGrant → Option RoleGrant → Exec Grants PermissionError (Unit {0})
register_over grant none = modify (λ grants. insert (grant_key grant) grant grants)
register_over grant (some existing) =
    if same_grant existing grant then pure tt else raise grant_exists

unfoldable pub register_grant : RoleGrant → Exec Grants PermissionError (Unit {0})
register_grant grant = do
  existing ← gets (λ grants. get (grant_key grant) grants)
  register_over grant existing

abbrev pub active_grant : Option RoleGrant → Option RoleGrant
active_grant none = none
active_grant (some grant) = if grant.active then some grant else none

abbrev pub joined : Option RoleGrant → List String × List String → List String × List String
joined none rest = rest
joined (some grant) rest = (grant.permission_refs ++ rest.0, grant.scope_refs ++ rest.1)

-- `resolve`: the union over the roles
unfoldable pub resolve : String → String → List String → Grants → List String × List String
resolve tenant_id organization_id [] grants = ([], [])
resolve tenant_id organization_id (role ∷ roles) grants =
    joined (active_grant (get (tenant_id, organization_id, role) grants))
      (resolve tenant_id organization_id roles grants)
