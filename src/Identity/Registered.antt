-- ===== src/Identity/Registered.antt =====
-- What a registration with an answer left in the service.
use Prim.Native.String.{count}
use alos_backend.Prelude.{
  String, ◌≡◌, refl, sym, ◌∙◌, ap, inl, inr, some, true, ◌&&◌, ◌==◌, string_eq, key2_eq, ltb,
  Bool-cases, ok,
}
use alos_backend.Prelude.Dict.{get, insert, has_key, get-insert_same}
use alos_backend.Prelude.Outcomes.{or_raise-ok, raise_if-ok, continue-ok, ok-eq}
use alos_backend.Authorization.{Principal, DataScope}
use alos_backend.Identity.Directory.{
  Directory, Membership, add_tenant, add_organization, add_workspace, add_actor, add_membership,
  admits_workspace, admits_actor, member_key, principal_for, principal_of, principal_from,
}
use alos_backend.Identity.Service.{
  Crypto, AccountRecord, AuthService, AuthError, Registration, Response, identity_conflict,
  invalid_scope_or_identity, invalid_email, user_already_exists, weak_password, principal_not_ready,
  serialize_principal, scope_of, value_or, or_default,
}
use alos_backend.Identity.Accounts.{
  Home, home_of, tenant_at, organization_at, workspace_at, actor_for, membership_for, changed,
  change_or, outcome_as, enroll, add_grants, open_account, new_account, register, before_at,
}
use alos_backend.Identity.Enrolled.{IsEnrolled-refl, add_grants-IsEnrolled}
use alos_backend.Identity.Principals.{principal_of-eq}

-- What an enrollment without an exception did.
added-membership :
    (m : Membership) (d : Directory) (e : AuthError)
    → outcome_as e (add_membership m d).0 ≡ ok tt
    → get (member_key m) (add_membership m d).1.memberships ≡ some m
unfolding add_membership
added-membership m d e h =
    elim (Bool-cases (
      admits_workspace m (get m.workspace_id d.workspaces)
      && admits_actor m (get m.actor_id d.actors))) [
        | inr outside ↦ (let wrong = rw outside at h in cc)
        | inl inside ↦ elim (Bool-cases (has_key (member_key m) d.memberships)) [
          | inl there ↦ (let wrong = rw (inside, there) at h in cc)
          | inr free ↦ rw (inside, free) (get-insert_same (member_key m) m d.memberships)
        ]
      ]

abbrev HasMember : Registration → Home → String → AuthService → Type 0
HasMember payload home actor_id s =
    (scope : DataScope) × (get (actor_id, home.workspace_id) s.directory.memberships
      ≡ some (membership_for payload home actor_id scope))

enroll-member :
    (payload : Registration) (home : Home) (actor_id name : String) (s s' : AuthService)
    → enroll payload home actor_id name s ≡ (ok tt, s')
    → HasMember payload home actor_id s'
unfolding enroll membership_for
enroll-member payload home actor_id name s s' h =
    let opened = changed (add_workspace (workspace_at home)) (
      changed (add_organization (organization_at home))
        (changed (add_tenant (tenant_at home)) s)) in
    let actor = actor_for payload home actor_id name in
    let (_, s1, acted, h1) =
      continue-ok (change_or (add_actor actor) identity_conflict opened) _ s' tt h in
    let (scope, named, h2) =
      or_raise-ok (scope_of (value_or "OWN_ASSIGNED" payload.data_scope)) invalid_scope_or_identity
        _ s1 s' tt h1 in
    let m = membership_for payload home actor_id scope in
    let added = added-membership m s1.directory invalid_scope_or_identity (ap (λ r. r.0) h2) in
    (scope, sym (ap (λ r. get (actor_id, home.workspace_id) r.1.directory.memberships) h2) ∙ added)

-- What the account and the answer are where the account was opened.
opened-account :
    (account : AccountRecord) (password name : String) (s s' : AuthService) (body : Response)
    → open_account account password name s ≡ (ok body, s')
    → (known : Principal) × (principal_for account.actor_id account.workspace_id s.directory
        ≡ some known)
      × (serialize_principal known (some account.email) (some name) ≡ body)
      × (get account.email s'.accounts ≡ some account)
      × (s'.directory ≡ s.directory)
unfolding open_account
opened-account account password name s s' body h =
    let (strong, h1) = raise_if-ok (ltb (count password) 8) weak_password _ s s' body h in
    let (known, found, h2) =
      or_raise-ok (principal_for account.actor_id account.workspace_id s.directory)
        principal_not_ready _ (record s { accounts = insert account.email account s.accounts }) s'
        body h1 in
    let after : record s { accounts = insert account.email account s.accounts } ≡ s' =
      ap (λ r. r.1) h2 in
    (
      known,
      found,
      ok-eq h2,
      ap (λ (t : AuthService). get account.email t.accounts) (sym after)
          ∙ get-insert_same account.email account s.accounts,
      ap (λ (t : AuthService). t.directory) (sym after),
    )

-- A service in which the email has that account, of that member.
pub record IsAccount (crypto : Crypto) (email : String) (account : AccountRecord) (m : Membership)
    (s : AuthService) : Type 0 where
  pub stored : get email s.accounts ≡ some account
  pub same_email : account.email ≡ email
  pub member : get (account.actor_id, account.workspace_id) s.directory.memberships ≡ some m
  pub is_active : m.active ≡ true

member_known :
    (actor_id workspace_id : String) (m : Membership) (d : Directory) (known : Principal)
    → get (actor_id, workspace_id) d.memberships ≡ some m
    → m.active ≡ true
    → principal_for actor_id workspace_id d ≡ some known
    → principal_of m ≡ known
unfolding principal_for
member_known actor_id workspace_id m d known at on found =
    let read = sym (ap principal_from at) ∙ found in principal_of-eq m.active m known read

pub registered :
    (crypto : Crypto) (payload : Registration) (actor_id salt : String) (s s' : AuthService)
    (body : Response)
    → register crypto payload actor_id salt s ≡ (ok body, s')
    → let email = crypto.normal (value_or "" payload.email) in
      let account =
        new_account crypto email (or_default payload.password "") actor_id salt (home_of payload) in
      (m : Membership) × IsAccount crypto email account m s'
      × (serialize_principal
            (principal_of m)
            (some email)
            (some (or_default payload.display_name (before_at email)))
          ≡ body)
unfolding register new_account membership_for
registered crypto payload actor_id salt s s' body h =
    let email = crypto.normal (value_or "" payload.email) in
    let home = home_of payload in
    let name = or_default payload.display_name (before_at email) in
    let password = or_default payload.password "" in
    let account = new_account crypto email password actor_id salt home in
    let (given, h1) = raise_if-ok (email == "") invalid_email _ s s' body h in
    let (free, h2) = raise_if-ok (has_key email s.accounts) user_already_exists _ s s' body h1 in
    let (_, s1, enrolled, h3) = continue-ok (enroll payload home actor_id name s) _ s' body h2 in
    let (_, s2, granted, h4) =
      continue-ok (add_grants home.tenant_id home.organization_id payload payload.roles s1) _ s'
        body h3 in
    let (scope, member) = enroll-member payload home actor_id name s s1 enrolled in
    let (known, found, answer, stored, same_directory) =
      opened-account account password name s2 s' body h4 in
    let m = membership_for payload home actor_id scope in
    let kept : get (actor_id, home.workspace_id) s2.directory.memberships ≡ some m =
      sym (ap (λ r. get (actor_id, home.workspace_id) r.1.directory.memberships) granted)
      ∙ (add_grants-IsEnrolled home.tenant_id home.organization_id payload payload.roles s1 s1
            (IsEnrolled-refl s1)).0.0.memberships
          (actor_id, home.workspace_id) m member in
    let same : principal_of m ≡ known =
      member_known actor_id home.workspace_id m s2.directory known kept refl found in
    (
      m,
      record {
        stored = stored;
        same_email = refl;
        member =
            ap (λ (d : Directory). get (actor_id, home.workspace_id) d.memberships) same_directory
            ∙ kept;
        is_active = refl;
      },
      ap (λ p. serialize_principal p (some email) (some name)) same ∙ answer,
    )
