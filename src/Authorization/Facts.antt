-- ===== src/Authorization/Facts.antt =====
-- What the policy asks, as facts on the principal.
use text.Mathlib.TextEquality.{eq_iff}
use alos_backend.Prelude.{
  String, ◌≡◌, refl, ◌↔◌, Option, none, some, List, [], ◌∷◌, true, false, string_eq, contains,
  is_subset, arith, is_subset-contains, beq_refl,
}
use alos_backend.Authorization.{Principal, Demand, misses, is_allowed}

-- A target that is given is the principal's own.
abbrev pub Matches : Option String → Option String → Type 0
Matches none own = Unit
Matches (some target) own = own ≡ some target

pub record IsPermitted (principal : Principal) (demand : Demand) : Type 0 where
  pub active : principal.active ≡ true
  pub tenant : principal.tenant_id ≡ demand.tenant_id
  pub organization : principal.organization_id ≡ demand.organization_id
  pub workspace : principal.workspace_id ≡ demand.workspace_id
  pub division : Matches demand.division_id principal.division_id
  pub project : Matches demand.project_id principal.project_id
  pub permission : contains demand.required_permission principal.permissions ≡ true
  pub scopes :
      (scope : String)
      → contains scope demand.required_scopes ≡ true
      → contains scope principal.scopes ≡ true

misses_lem : (target own : Option String) → (misses target own ≡ false) ↔ Matches target own
unfolding misses
misses_lem none own = (λ h. tt, λ h. refl)
misses_lem (some target) none = (λ h. cc, λ h. cc)
misses_lem (some target) (some own) =
    (λ h. ground (arith, eq_iff own target), λ h. ground (arith, eq_iff own target))

contains-is_subset :
    (xs ys : List String)
    → ((a : String) → contains a xs ≡ true → contains a ys ≡ true)
    → is_subset xs ys ≡ true
unfolding contains is_subset
contains-is_subset [] ys f = refl
contains-is_subset (x ∷ xs) ys f =
    let head : contains x ys ≡ true = f x (ground (arith, beq_refl x)) in
    let tail = contains-is_subset xs ys (λ a m. f a (ground arith)) in ground arith

-- The policy allows a principal exactly if it is active, of the same tenant, organization and
-- workspace, matches the targeted division and project, and has the permission and every scope.
pub is_allowed_iff :
    (principal : Principal) (demand : Demand)
    → (is_allowed (some principal) demand ≡ true) ↔ IsPermitted principal demand
unfolding is_allowed
is_allowed_iff principal demand = (
  λ h. record {
    active = ground arith;
    tenant = ground (arith, eq_iff principal.tenant_id demand.tenant_id);
    organization = ground (arith, eq_iff principal.organization_id demand.organization_id);
    workspace = ground (arith, eq_iff principal.workspace_id demand.workspace_id);
    division = (misses_lem demand.division_id principal.division_id).0 (ground arith);
    project = (misses_lem demand.project_id principal.project_id).0 (ground arith);
    permission = ground arith;
    scopes = λ scope m.
        is_subset-contains demand.required_scopes principal.scopes scope (ground arith) m;
  },
  λ p.
      let subset = contains-is_subset demand.required_scopes principal.scopes p.scopes in
      rw
        (
          p.active,
          (eq_iff principal.tenant_id demand.tenant_id).1 p.tenant,
          (eq_iff principal.organization_id demand.organization_id).1 p.organization,
          (eq_iff principal.workspace_id demand.workspace_id).1 p.workspace,
          (misses_lem demand.division_id principal.division_id).1 p.division,
          (misses_lem demand.project_id principal.project_id).1 p.project,
          p.permission,
          subset,
        )
        refl,
)
