-- ===== src/Identity/Boundaries.antt =====
-- The directory only grows, and its records stay within one tenant and organization.
use alos_backend.Prelude.{String, ◌≡◌, ◌⊎◌, inl, inr, some, string_eq, Key2, key2_eq}
use alos_backend.Prelude.Dict.{get}
use alos_backend.Identity.Directory.{
  Tenant, Organization, Workspace, Actor, Membership, Directory, member_key,
}

-- Every record of d is one of d' too.
pub record IsGrown (d d' : Directory) : Type 0 where
  pub tenants : (k : String) (v : Tenant) → get k d.tenants ≡ some v → get k d'.tenants ≡ some v
  pub organizations :
      (k : String) (v : Organization)
      → get k d.organizations ≡ some v
      → get k d'.organizations ≡ some v
  pub workspaces :
      (k : String) (v : Workspace) → get k d.workspaces ≡ some v → get k d'.workspaces ≡ some v
  pub actors : (k : String) (v : Actor) → get k d.actors ≡ some v → get k d'.actors ≡ some v
  pub memberships :
      (k : Key2) (v : Membership) → get k d.memberships ≡ some v → get k d'.memberships ≡ some v

pub IsGrown-refl : (d : Directory) → IsGrown d d
IsGrown-refl d = record {
  tenants = λ k v h. h;
  organizations = λ k v h. h;
  workspaces = λ k v h. h;
  actors = λ k v h. h;
  memberships = λ k v h. h;
}

pub IsGrown-trans : (a b c : Directory) → IsGrown a b → IsGrown b c → IsGrown a c
IsGrown-trans a b c g h = record {
  tenants = λ k v at. h.tenants k v (g.tenants k v at);
  organizations = λ k v at. h.organizations k v (g.organizations k v at);
  workspaces = λ k v at. h.workspaces k v (g.workspaces k v at);
  actors = λ k v at. h.actors k v (g.actors k v at);
  memberships = λ k v at. h.memberships k v (g.memberships k v at);
}

-- The tenant, the organization, the workspace and the actor are there and belong together.
abbrev pub HasTenant : Directory → String → Type 0
HasTenant d tenant_id = (t : Tenant) × (get tenant_id d.tenants ≡ some t)

abbrev pub HasOrganization : Directory → String → String → Type 0
HasOrganization d organization_id tenant_id =
    (o : Organization) × (get organization_id d.organizations ≡ some o) × (o.tenant_id ≡ tenant_id)

abbrev pub HasWorkspace : Directory → String → String → String → Type 0
HasWorkspace d workspace_id organization_id tenant_id =
    (w : Workspace) × (get workspace_id d.workspaces ≡ some w)
    × (w.tenant_id ≡ tenant_id)
    × (w.organization_id ≡ organization_id)

abbrev pub HasActor : Directory → String → String → String → Type 0
HasActor d actor_id organization_id tenant_id =
    (a : Actor) × (get actor_id d.actors ≡ some a)
    × (a.tenant_id ≡ tenant_id)
    × (a.organization_id ≡ organization_id)

-- The membership stands under its key, and is one of an actor and a workspace of its organization.
abbrev pub IsMember : Directory → Key2 → Membership → Type 0
IsMember d k m =
    (k ≡ member_key m)
    × HasWorkspace d m.workspace_id m.organization_id m.tenant_id
    × HasActor d m.actor_id m.organization_id m.tenant_id

pub record IsBounded (d : Directory) : Type 0 where
  pub organizations :
      (k : String) (o : Organization) → get k d.organizations ≡ some o → HasTenant d o.tenant_id
  pub workspaces :
      (k : String) (w : Workspace)
      → get k d.workspaces ≡ some w
      → HasOrganization d w.organization_id w.tenant_id
  pub actors :
      (k : String) (a : Actor)
      → get k d.actors ≡ some a
      → HasOrganization d a.organization_id a.tenant_id
  pub memberships : (k : Key2) (m : Membership) → get k d.memberships ≡ some m → IsMember d k m

abbrev pub IsExtended : Directory → Directory → Type 0
IsExtended d d' = IsGrown d d' × (IsBounded d → IsBounded d')

pub IsExtended-refl : (d : Directory) → IsExtended d d
IsExtended-refl d = (IsGrown-refl d, λ b. b)

pub IsExtended-trans : (a b c : Directory) → IsExtended a b → IsExtended b c → IsExtended a c
IsExtended-trans a b c h k = (IsGrown-trans a b c h.0 k.0, λ bounded. k.1 (h.1 bounded))

-- What was there is there after growth.
module _ (d d' : Directory) (g : IsGrown d d') where
  tenant_grown : (t : String) → HasTenant d t → HasTenant d' t
  tenant_grown t (v, at) = (v, g.tenants t v at)

  organization_grown : (o t : String) → HasOrganization d o t → HasOrganization d' o t
  organization_grown o t (v, at, same) = (v, g.organizations o v at, same)

  workspace_grown : (w o t : String) → HasWorkspace d w o t → HasWorkspace d' w o t
  workspace_grown w o t (v, at, tenant, same) = (v, g.workspaces w v at, tenant, same)

  actor_grown : (a o t : String) → HasActor d a o t → HasActor d' a o t
  actor_grown a o t (v, at, tenant, same) = (v, g.actors a v at, tenant, same)

  -- A directory that has grown is bounded, if its new records are.
  pub grown-IsBounded :
      IsBounded d
      → ((k : String) (o : Organization)
          → get k d'.organizations ≡ some o
          → HasTenant d o.tenant_id ⊎ (get k d.organizations ≡ some o))
      → ((k : String) (w : Workspace)
          → get k d'.workspaces ≡ some w
          → HasOrganization d w.organization_id w.tenant_id ⊎ (get k d.workspaces ≡ some w))
      → ((k : String) (a : Actor)
          → get k d'.actors ≡ some a
          → HasOrganization d a.organization_id a.tenant_id ⊎ (get k d.actors ≡ some a))
      → ((k : Key2) (m : Membership)
          → get k d'.memberships ≡ some m
          → IsMember d k m ⊎ (get k d.memberships ≡ some m))
      → IsBounded d'
  grown-IsBounded b organizations workspaces actors memberships = record {
    organizations = λ k o at. elim (organizations k o at) [
      | inl new ↦ tenant_grown o.tenant_id new
      | inr old ↦ tenant_grown o.tenant_id (b.organizations k o old)
    ];
    workspaces = λ k w at. elim (workspaces k w at) [
      | inl new ↦ organization_grown w.organization_id w.tenant_id new
      | inr old ↦ organization_grown w.organization_id w.tenant_id (b.workspaces k w old)
    ];
    actors = λ k a at. elim (actors k a at) [
      | inl new ↦ organization_grown a.organization_id a.tenant_id new
      | inr old ↦ organization_grown a.organization_id a.tenant_id (b.actors k a old)
    ];
    memberships = λ k m at. elim (memberships k m at) [
      | inl (key, w, a) ↦ (
        key,
        workspace_grown m.workspace_id m.organization_id m.tenant_id w,
        actor_grown m.actor_id m.organization_id m.tenant_id a,
      )
      | inr old ↦
          (let (key, w, a) = b.memberships k m old in
            (
              key,
              workspace_grown m.workspace_id m.organization_id m.tenant_id w,
              actor_grown m.actor_id m.organization_id m.tenant_id a,
            ))
    ];
  }
