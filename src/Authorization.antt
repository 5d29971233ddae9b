-- ===== src/Authorization.antt =====
-- authorization/policy.py and the principal of identity/__init__.py. A set is a list, of which only
-- membership and emptiness are asked.
pub mod Enforcement
pub mod Facts
pub mod Decisions
mod Tests
use alos_backend.Prelude.{
  String, Option, none, some, List, Bool, true, false, not, ◌&&◌, ◌||◌, ◌==◌, string_eq, contains,
  is_subset, if◌then◌else◌,
}

pub data DataScope : Type 0 where
  company division project own_assigned : DataScope

pub record Principal : Type 0 where
  pub actor_id : String
  pub tenant_id : String
  pub organization_id : String
  pub workspace_id : String
  pub permissions : List String
  pub scopes : List String
  pub roles : List String
  pub data_scope : DataScope
  pub division_id : Option String
  pub project_id : Option String
  pub active : Bool

-- What a command targets and requires.
pub record Demand : Type 0 where
  pub tenant_id : String
  pub organization_id : String
  pub workspace_id : String
  pub required_permission : String
  pub required_scopes : List String
  pub division_id : Option String
  pub project_id : Option String

-- `target is not None and (own is None or own != target)`
unfoldable pub misses : Option String → Option String → Bool
misses none own = false
misses (some target) none = true
misses (some target) (some own) = not (own == target)

-- `AuthorizationPolicy.is_allowed`
unfoldable pub is_allowed : Option Principal → Demand → Bool
is_allowed none demand = false
is_allowed (some principal) demand =
    if not principal.active
    then false
    else if not (principal.tenant_id == demand.tenant_id)
        || (not (principal.organization_id == demand.organization_id)
            || not (principal.workspace_id == demand.workspace_id))
    then false
    else if misses demand.division_id principal.division_id
    then false
    else if misses demand.project_id principal.project_id
    then false
    else if not (contains demand.required_permission principal.permissions)
    then false
    else is_subset demand.required_scopes principal.scopes
