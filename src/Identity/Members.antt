-- ===== src/Identity/Members.antt =====
-- Actors and memberships let the directory grow within its boundaries.
use mathlib.Core.Path.{subst}
use alos_backend.Prelude.{inl, inr, not, ◌&&◌, string_eq, key2_eq, raise_if}
use alos_backend.Prelude.Dict.{get, insert, has_key}
use alos_backend.Prelude.Entries.{inserted-cases, fresh_insert-get}
use alos_backend.Prelude.Checks.{raise_if-Checks, Checks-state, passed}
use alos_backend.Identity.Directory.{
  Actor, Membership, Directory, actor_boundary, membership_boundary, already_exists, add_actor,
  add_membership, is_of_tenant, admits_workspace, admits_actor, member_key,
}
use alos_backend.Identity.Boundaries.{
  IsGrown, HasOrganization, IsMember, IsExtended, IsExtended-refl, grown-IsBounded,
}
use alos_backend.Identity.Additions.{of_tenant, admitted_workspace, admitted_actor, both_true}

pub add_actor-IsExtended : (actor : Actor) (d : Directory) → IsExtended d (add_actor actor d).1
unfolding add_actor
add_actor-IsExtended actor d =
    Checks-state (IsExtended d) _
      (raise_if (not (is_of_tenant actor.tenant_id (get actor.organization_id d.organizations)))
        actor_boundary)
      _ d (raise_if-Checks _ _) (IsExtended-refl d)
      (λ _ owned.
        Checks-state (IsExtended d) _ (raise_if (has_key (actor.actor_id) d.actors) already_exists)
          _ d (raise_if-Checks _ _) (IsExtended-refl d)
          (λ _ fresh.
            let grown : IsGrown d (record d { actors = insert (actor.actor_id) actor d.actors }) =
              record {
                tenants = λ k v h. h;
                organizations = λ k v h. h;
                workspaces = λ k v h. h;
                actors = λ k v. fresh_insert-get k (actor.actor_id) actor v d.actors fresh;
                memberships = λ k v h. h;
              } in
            (
              grown,
              λ b.
                  grown-IsBounded d _ grown b (λ k o. inr) (λ k w. inr)
                    (λ k a at. elim (inserted-cases k (actor.actor_id) actor a d.actors at) [
                      | inl (same_key, same) ↦ inl (
                          subst (λ (x : Actor). HasOrganization d x.organization_id x.tenant_id)
                            same (of_tenant _ _ (passed owned)))
                      | inr old ↦ inr old
                    ])
                    (λ k m. inr),
            )))

pub add_membership-IsExtended :
    (membership : Membership) (d : Directory) → IsExtended d (add_membership membership d).1
unfolding add_membership
add_membership-IsExtended membership d =
    Checks-state (IsExtended d) _
      (raise_if
        (not (
          admits_workspace membership (get membership.workspace_id d.workspaces)
          && admits_actor membership (get membership.actor_id d.actors)))
        membership_boundary)
      _ d (raise_if-Checks _ _) (IsExtended-refl d)
      (λ _ owned.
        Checks-state (IsExtended d) _
          (raise_if (has_key (member_key membership) d.memberships) already_exists) _ d
          (raise_if-Checks _ _) (IsExtended-refl d)
          (λ _ fresh.
            let grown : IsGrown d (record d {
              memberships = insert (member_key membership) membership d.memberships;
            }) =
              record {
                tenants = λ k v h. h;
                organizations = λ k v h. h;
                workspaces = λ k v h. h;
                actors = λ k v h. h;
                memberships = λ k v.
                    fresh_insert-get k (member_key membership) membership v d.memberships fresh;
              } in
            (
              grown,
              λ b.
                  grown-IsBounded d _ grown b (λ k o. inr) (λ k w. inr) (λ k a. inr)
                    (λ k m at.
                      elim (inserted-cases k (member_key membership) membership m d.memberships
                        at) [
                          | inl (same_key, same) ↦ inl (
                              subst (IsMember d k) same (
                                same_key,
                                admitted_workspace membership _ (both_true _ _ (passed owned)).0,
                                admitted_actor membership _ (both_true _ _ (passed owned)).1,
                              ))
                          | inr old ↦ inr old
                        ]),
            )))
