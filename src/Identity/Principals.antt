-- ===== src/Identity/Principals.antt =====
-- The principals that there are after registrations.
use mathlib.Core.Path.{subst}
use alos_backend.Prelude.{
  String, ◌≡◌, refl, sym, ap, inl, inr, none, some, List, [], ◌∷◌, Bool, true, false, string_eq,
  Key2, key2_eq, Option-cases, if◌then◌else◌,
}
use alos_backend.Prelude.Dict.{get}
use alos_backend.Authorization.{Principal}
use alos_backend.Identity.Directory.{Directory, Membership, principal_for, principal_of}
use alos_backend.Identity.Boundaries.{HasOrganization, HasWorkspace, HasActor, IsBounded}
use alos_backend.Identity.Service.{Crypto, AuthService, Registration}
use alos_backend.Identity.Accounts.{register}
use alos_backend.Identity.Enrolled.{IsServed, IsServed-refl, IsServed-trans, register-IsServed}

-- Registrations, each with its fresh actor id and salt
unfoldable pub registrations :
    Crypto → List (Registration × String × String) → AuthService → AuthService
registrations crypto [] s = s
registrations crypto ((payload, actor_id, salt) ∷ rest) s =
    registrations crypto rest (register crypto payload actor_id salt s).1

pub registrations-IsServed :
    (crypto : Crypto) (further : List (Registration × String × String)) (s : AuthService)
    → IsServed s (registrations crypto further s)
unfolding registrations
registrations-IsServed crypto [] s = IsServed-refl s
registrations-IsServed crypto ((payload, actor_id, salt) ∷ rest) s =
    let next = (register crypto payload actor_id salt s).1 in
    IsServed-trans s next (registrations crypto rest next)
      (register-IsServed crypto payload actor_id salt s) (registrations-IsServed crypto rest next)

abbrev pub new_service : AuthService
new_service = record {
  directory = record {
    tenants = [];
    organizations = [];
    workspaces = [];
    actors = [];
    memberships = [];
  };
  permissions = [];
  accounts = [];
}

new-IsBounded : IsBounded new_service.directory
unfolding get
new-IsBounded = record {
  organizations = λ k o at. cc;
  workspaces = λ k w at. cc;
  actors = λ k a at. cc;
  memberships = λ k m at. cc;
}

-- The principal is the one asked for, and its actor and workspace are of its organization and
-- tenant.
pub record IsWithin (d : Directory) (actor_id workspace_id : String) (p : Principal) : Type 0 where
  pub same_actor : p.actor_id ≡ actor_id
  pub same_workspace : p.workspace_id ≡ workspace_id
  pub has_workspace : HasWorkspace d workspace_id p.organization_id p.tenant_id
  pub has_actor : HasActor d actor_id p.organization_id p.tenant_id
  pub has_organization : HasOrganization d p.organization_id p.tenant_id

pub principal_of-eq :
    (b : Bool) (m : Membership) (p : Principal)
    → (if b then some (principal_of m) else none) ≡ some p
    → principal_of m ≡ p
principal_of-eq true m p h = cc
principal_of-eq false m p h = cc

member-IsWithin :
    (d : Directory) (k : Key2) (m : Membership)
    → IsBounded d
    → get k d.memberships ≡ some m
    → IsWithin d m.actor_id m.workspace_id (principal_of m)
member-IsWithin d k m b at =
    let (key, (w, w_at, w_tenant, w_organization), a) = b.memberships k m at in
    record {
      same_actor = refl;
      same_workspace = refl;
      has_workspace = (w, w_at, w_tenant, w_organization);
      has_actor = a;
      has_organization =
          subst (λ t. HasOrganization d m.organization_id t) w_tenant
            (subst (λ o. HasOrganization d o w.tenant_id) w_organization
              (b.workspaces m.workspace_id w w_at));
    }

bounded-IsWithin :
    (d : Directory) (actor_id workspace_id : String) (p : Principal)
    → IsBounded d
    → principal_for actor_id workspace_id d ≡ some p
    → IsWithin d actor_id workspace_id p
unfolding principal_for
bounded-IsWithin d actor_id workspace_id p b h =
    elim (Option-cases (get (actor_id, workspace_id) d.memberships)) [
      | inl missing ↦ (let wrong = rw missing at h in cc)
      | inr (m, at) ↦
          (let key = (b.memberships (actor_id, workspace_id) m at).0 in
            let known = principal_of-eq m.active m p (rw at at h) in
            subst (λ a. IsWithin d a workspace_id p) (ap (λ (k : Key2). k.0) (sym key))
              (subst (λ w. IsWithin d m.actor_id w p) (ap (λ (k : Key2). k.1) (sym key))
                (subst (IsWithin d m.actor_id m.workspace_id) known
                  (member-IsWithin d (actor_id, workspace_id) m b at))))
    ]

-- After any registrations in a new service, every principal that the directory gives is of the
-- actor and the workspace asked for, and these are in the directory, of the principal's
-- organization and tenant, as is this organization, of that tenant.
pub registrations-IsWithin :
    (crypto : Crypto) (all : List (Registration × String × String)) (actor_id workspace_id : String)
    (p : Principal)
    → principal_for actor_id workspace_id (registrations crypto all new_service).directory ≡ some p
    → IsWithin (registrations crypto all new_service).directory actor_id workspace_id p
registrations-IsWithin crypto all actor_id workspace_id p =
    bounded-IsWithin (registrations crypto all new_service).directory actor_id workspace_id p
      ((registrations-IsServed crypto all new_service).0.1 new-IsBounded)
