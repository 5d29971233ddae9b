-- ===== src/Authorization/Tests.antt =====
-- The theorems at one principal.
use alos_backend.Prelude.{◌≡◌, ◌↔◌, some, none, [], ◌∷◌, true}
use alos_backend.Authorization.{Principal, Demand, own_assigned, is_allowed}
use alos_backend.Authorization.Facts.{IsPermitted, is_allowed_iff}
use alos_backend.Authorization.Enforcement.{Claim, allowed, enforce}
use alos_backend.Authorization.Decisions.{IsCleared, enforce-allowed}

abbrev alice : Principal
alice = record {
  actor_id = "alice";
  tenant_id = "t1";
  organization_id = "o1";
  workspace_id = "w1";
  permissions = "job.run" ∷ [];
  scopes = "sales" ∷ [];
  roles = [];
  data_scope = own_assigned;
  division_id = none;
  project_id = none;
  active = true;
}

abbrev demand : Demand
demand = record {
  tenant_id = "t1";
  organization_id = "o1";
  workspace_id = "w1";
  required_permission = "job.run";
  required_scopes = "sales" ∷ [];
  division_id = none;
  project_id = none;
}

is_allowed_iff_example : (is_allowed (some alice) demand ≡ true) ↔ IsPermitted alice demand
is_allowed_iff_example = is_allowed_iff alice demand

abbrev claim : Claim
claim = record {
  required_permission = "job.run";
  required_scopes = "sales" ∷ [];
  division_id = none;
  project_id = none;
  correlation_id = "c1";
  command = "run";
  untrusted_actor_id = some "alice";
  untrusted_tenant_id = none;
  untrusted_workspace_id = some "w1";
  untrusted_division_id = some "d1";
  untrusted_project_id = none;
}

enforce-allowed_example :
    ((enforce (some alice) claim 7 []).0.outcome ≡ allowed)
    ↔ ((p : Principal) × (some alice ≡ some p) × IsCleared p claim)
enforce-allowed_example = enforce-allowed (some alice) claim 7 []
