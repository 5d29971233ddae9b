-- ===== src/Identity/Additions.antt =====
-- Each addition to the directory lets it grow within its boundaries.
use mathlib.Core.Path.{subst}
use alos_backend.Prelude.{
  String, ◌≡◌, refl, inl, inr, Option, none, some, Bool, true, false, not, ◌&&◌, string_eq, key2_eq,
  arith, raise_if,
}
use alos_backend.Prelude.Dict.{get, insert, has_key}
use alos_backend.Prelude.Entries.{inserted-cases, fresh_insert-get}
use alos_backend.Prelude.Checks.{raise_if-Checks, Checks-state, passed}
use alos_backend.Identity.Directory.{
  Tenant, Organization, Workspace, Actor, Membership, Directory, no_active_tenant,
  workspace_boundary, already_exists, add_tenant, add_organization, add_workspace, is_active_tenant,
  is_of_tenant, admits_workspace, admits_actor,
}
use alos_backend.Identity.Boundaries.{
  IsGrown, HasTenant, HasOrganization, IsExtended, IsExtended-refl, grown-IsBounded,
}

active_tenant : (o : Option Tenant) → is_active_tenant o ≡ true → (t : Tenant) × (o ≡ some t)
active_tenant none h = cc
active_tenant (some t) h = (t, refl)

pub of_tenant :
    (tenant_id : String) (o : Option Organization)
    → is_of_tenant tenant_id o ≡ true
    → (found : Organization) × (o ≡ some found) × (found.tenant_id ≡ tenant_id)
of_tenant tenant_id none h = cc
of_tenant tenant_id (some found) h =
    (found, refl, ground (arith, string_eq.beq_iff found.tenant_id tenant_id))

pub admitted_workspace :
    (m : Membership) (o : Option Workspace)
    → admits_workspace m o ≡ true
    → (w : Workspace) × (o ≡ some w)
      × (w.tenant_id ≡ m.tenant_id)
      × (w.organization_id ≡ m.organization_id)
admitted_workspace m none h = cc
admitted_workspace m (some w) h = (
  w,
  refl,
  ground (arith, string_eq.beq_iff w.tenant_id m.tenant_id),
  ground (arith, string_eq.beq_iff w.organization_id m.organization_id),
)

pub admitted_actor :
    (m : Membership) (o : Option Actor)
    → admits_actor m o ≡ true
    → (a : Actor) × (o ≡ some a)
      × (a.tenant_id ≡ m.tenant_id)
      × (a.organization_id ≡ m.organization_id)
admitted_actor m none h = cc
admitted_actor m (some a) h = (
  a,
  refl,
  ground (arith, string_eq.beq_iff a.tenant_id m.tenant_id),
  ground (arith, string_eq.beq_iff a.organization_id m.organization_id),
)

pub both_true : (a b : Bool) → a && b ≡ true → (a ≡ true) × (b ≡ true)
both_true true b h = (refl, h)
both_true false b h = cc

pub add_tenant-IsExtended : (tenant : Tenant) (d : Directory) → IsExtended d (add_tenant tenant d).1
unfolding add_tenant
add_tenant-IsExtended tenant d =
    Checks-state (IsExtended d) _ (raise_if (has_key (tenant.tenant_id) d.tenants) already_exists) _
      d (raise_if-Checks _ _) (IsExtended-refl d)
      (λ _ fresh.
        let grown : IsGrown d (record d { tenants = insert (tenant.tenant_id) tenant d.tenants }) =
          record {
            tenants = λ k v. fresh_insert-get k (tenant.tenant_id) tenant v d.tenants fresh;
            organizations = λ k v h. h;
            workspaces = λ k v h. h;
            actors = λ k v h. h;
            memberships = λ k v h. h;
          } in
        (
          grown,
          λ b. grown-IsBounded d _ grown b (λ k o. inr) (λ k w. inr) (λ k a. inr) (λ k m. inr),
        ))

pub add_organization-IsExtended :
    (organization : Organization) (d : Directory) → IsExtended d (add_organization organization d).1
unfolding add_organization
add_organization-IsExtended organization d =
    Checks-state (IsExtended d) _
      (raise_if (not (is_active_tenant (get organization.tenant_id d.tenants))) no_active_tenant) _
      d (raise_if-Checks _ _) (IsExtended-refl d)
      (λ _ owned.
        Checks-state (IsExtended d) _
          (raise_if (has_key (organization.organization_id) d.organizations) already_exists) _ d
          (raise_if-Checks _ _) (IsExtended-refl d)
          (λ _ fresh.
            let grown : IsGrown d (record d {
              organizations = insert (organization.organization_id) organization d.organizations;
            }) =
              record {
                tenants = λ k v h. h;
                organizations = λ k v.
                    fresh_insert-get k (organization.organization_id) organization v d.organizations
                      fresh;
                workspaces = λ k v h. h;
                actors = λ k v h. h;
                memberships = λ k v h. h;
              } in
            (
              grown,
              λ b.
                  grown-IsBounded d _ grown b
                    (λ k o at.
                      elim (inserted-cases k (organization.organization_id) organization o
                        d.organizations at) [
                          | inl (same_key, same) ↦ inl (
                              subst (λ (x : Organization). HasTenant d x.tenant_id) same
                                (active_tenant _ (passed owned)))
                          | inr old ↦ inr old
                        ])
                    (λ k w. inr) (λ k a. inr) (λ k m. inr),
            )))

pub add_workspace-IsExtended :
    (workspace : Workspace) (d : Directory) → IsExtended d (add_workspace workspace d).1
unfolding add_workspace
add_workspace-IsExtended workspace d =
    Checks-state (IsExtended d) _
      (raise_if
        (not (is_of_tenant workspace.tenant_id (get workspace.organization_id d.organizations)))
        workspace_boundary)
      _ d (raise_if-Checks _ _) (IsExtended-refl d)
      (λ _ owned.
        Checks-state (IsExtended d) _
          (raise_if (has_key (workspace.workspace_id) d.workspaces) already_exists) _ d
          (raise_if-Checks _ _) (IsExtended-refl d)
          (λ _ fresh.
            let grown : IsGrown d
                (record d { workspaces = insert (workspace.workspace_id) workspace d.workspaces }) =
              record {
                tenants = λ k v h. h;
                organizations = λ k v h. h;
                workspaces = λ k v.
                    fresh_insert-get k (workspace.workspace_id) workspace v d.workspaces fresh;
                actors = λ k v h. h;
                memberships = λ k v h. h;
              } in
            (
              grown,
              λ b.
                  grown-IsBounded d _ grown b (λ k o. inr)
                    (λ k w at.
                      elim (inserted-cases k (workspace.workspace_id) workspace w d.workspaces at) [
                        | inl (same_key, same) ↦ inl (
                            subst
                              (λ (x : Workspace). HasOrganization d x.organization_id x.tenant_id)
                              same (of_tenant _ _ (passed owned)))
                        | inr old ↦ inr old
                      ])
                    (λ k a. inr) (λ k m. inr),
            )))
