-- ===== src/Identity/Enrolled.antt =====
-- What a registration leaves of the service, however it ends.
use Prim.Native.String.{count}
use alos_backend.Prelude.{
  String, ◌≡◌, refl, ◌∙◌, ap, some, List, [], ◌∷◌, false, ◌==◌, string_eq, ltb, raise_if, or_raise,
  ◌>>◌,
}
use alos_backend.Prelude.Dict.{get, insert, has_key}
use alos_backend.Prelude.Entries.{fresh_insert-get}
use alos_backend.Prelude.Checks.{raise_if-Checks, or_raise-Checks, Checks-state}
use alos_backend.Prelude.Outcomes.{continue-state, continue-states}
use alos_backend.Identity.Directory.{
  Directory, Change, add_tenant, add_organization, add_workspace, add_actor, add_membership,
  principal_for,
}
use alos_backend.Identity.Boundaries.{IsExtended, IsExtended-refl, IsExtended-trans}
use alos_backend.Identity.Additions.{
  add_tenant-IsExtended, add_organization-IsExtended, add_workspace-IsExtended,
}
use alos_backend.Identity.Members.{add_actor-IsExtended, add_membership-IsExtended}
use alos_backend.Identity.Service.{
  Crypto, AccountRecord, AuthService, invalid_email, user_already_exists, weak_password,
  identity_conflict, invalid_scope_or_identity, Registration, scope_of, value_or, or_default,
  principal_not_ready,
}
use alos_backend.Identity.Accounts.{
  Home, home_of, changed, tenant_at, organization_at, workspace_at, actor_for, change_or, add_grant,
  add_grants, enroll, membership_for, open_account, new_account, register, before_at,
}

-- The directory has grown within its boundaries, and the accounts are the same.
abbrev pub IsEnrolled : AuthService → AuthService → Type 0
IsEnrolled s s' = IsExtended s.directory s'.directory × (s'.accounts ≡ s.accounts)

pub IsEnrolled-refl : (s : AuthService) → IsEnrolled s s
IsEnrolled-refl s = (IsExtended-refl s.directory, refl)

-- a change of the directory after others
changed-IsEnrolled :
    (change : Change) (s s' : AuthService)
    → ((d : Directory) → IsExtended d (change d).1)
    → IsEnrolled s s'
    → IsEnrolled s (changed change s')
changed-IsEnrolled change s s' extends (grown, same) = (
  IsExtended-trans s.directory s'.directory (change s'.directory).1 grown (extends s'.directory),
  same,
)

pub enroll-IsEnrolled :
    (payload : Registration) (home : Home) (actor_id display_name : String) (s : AuthService)
    → IsEnrolled s (enroll payload home actor_id display_name s).1
unfolding enroll
enroll-IsEnrolled payload home actor_id display_name s =
    let made = changed (add_tenant (tenant_at home)) s in
    let founded = changed (add_organization (organization_at home)) made in
    let opened = changed (add_workspace (workspace_at home)) founded in
    let actor = actor_for payload home actor_id display_name in
    let first =
      changed-IsEnrolled (add_tenant (tenant_at home)) s s (add_tenant-IsExtended (tenant_at home))
        (IsEnrolled-refl s) in
    let second =
      changed-IsEnrolled (add_organization (organization_at home)) s made
        (add_organization-IsExtended (organization_at home)) first in
    let third =
      changed-IsEnrolled (add_workspace (workspace_at home)) s founded
        (add_workspace-IsExtended (workspace_at home)) second in
    continue-state (IsEnrolled s) (change_or (add_actor actor) identity_conflict opened) _
      (changed-IsEnrolled (add_actor actor) s opened (add_actor-IsExtended actor) third)
      (λ _ s1 enrolled.
        Checks-state (IsEnrolled s) _
          (or_raise (scope_of (value_or "OWN_ASSIGNED" payload.data_scope))
            invalid_scope_or_identity)
          _ s1 (or_raise-Checks _ _) enrolled
          (λ scope named.
            changed-IsEnrolled (add_membership (membership_for payload home actor_id scope)) s s1
              (add_membership-IsExtended (membership_for payload home actor_id scope)) enrolled))

pub add_grants-IsEnrolled :
    (tenant_id organization_id : String) (payload : Registration) (roles : List String)
    (s s' : AuthService)
    → IsEnrolled s s'
    → IsEnrolled s (add_grants tenant_id organization_id payload roles s').1
unfolding add_grants
add_grants-IsEnrolled tenant_id organization_id payload [] s s' e = e
add_grants-IsEnrolled tenant_id organization_id payload (role ∷ roles) s s' e =
    continue-state (IsEnrolled s) (add_grant _ s') _ e
      (λ _ s1 e1. add_grants-IsEnrolled tenant_id organization_id payload roles s s1 e1)

-- The directory has grown within its boundaries, and every account is kept.
abbrev pub IsServed : AuthService → AuthService → Type 0
IsServed s s' =
    IsExtended s.directory s'.directory
    × ((k : String) (a : AccountRecord) → get k s.accounts ≡ some a → get k s'.accounts ≡ some a)

pub IsServed-trans : (a b c : AuthService) → IsServed a b → IsServed b c → IsServed a c
IsServed-trans a b c h k = (
  IsExtended-trans a.directory b.directory c.directory h.0 k.0,
  λ key account at. k.1 key account (h.1 key account at),
)

pub IsServed-refl : (s : AuthService) → IsServed s s
IsServed-refl s = (IsExtended-refl s.directory, λ k a at. at)

enrolled-IsServed : (s s' : AuthService) → IsEnrolled s s' → IsServed s s'
enrolled-IsServed s s' e = (e.0, λ k a at. ap (get k) e.1 ∙ at)

open_account-IsServed :
    (account : AccountRecord) (password display_name : String) (s s' : AuthService)
    → has_key account.email s.accounts ≡ false
    → IsEnrolled s s'
    → IsServed s (open_account account password display_name s').1
unfolding open_account
open_account-IsServed account password display_name s s' free e =
    Checks-state (IsServed s) _ (raise_if (ltb (count password) 8) weak_password) _ s'
      (raise_if-Checks _ _) (enrolled-IsServed s s' e)
      (λ _ strong.
        let opened : IsServed s
            (record s' { accounts = insert account.email account s'.accounts }) =
          (
            e.0,
            λ k a at.
                fresh_insert-get k account.email account a s'.accounts
                  (ap (has_key account.email) e.1 ∙ free) (ap (get k) e.1 ∙ at),
          ) in
        Checks-state (IsServed s) _
          (or_raise (principal_for account.actor_id account.workspace_id s'.directory)
            principal_not_ready)
          _ _ (or_raise-Checks _ _) opened (λ _ _. opened))

-- Enrollment and grants, and then the account
enrolled_first :
    (payload : Registration) (home : Home) (actor_id name : String) (s : AuthService)
    (account : AccountRecord) (password : String)
    → has_key account.email s.accounts ≡ false
    → IsServed s
        ((enroll payload home actor_id name
            >> (add_grants home.tenant_id home.organization_id payload payload.roles
                >> open_account account password name))
          s).1
enrolled_first payload home actor_id name s account password free =
    continue-states (IsEnrolled s) (IsServed s) (enroll payload home actor_id name s) _
      (enroll-IsEnrolled payload home actor_id name s) (enrolled-IsServed s)
      (λ _ s1 e1.
        continue-states (IsEnrolled s) (IsServed s)
          (add_grants home.tenant_id home.organization_id payload payload.roles s1) _
          (add_grants-IsEnrolled home.tenant_id home.organization_id payload payload.roles s s1 e1)
          (enrolled-IsServed s)
          (λ _ s2 e2. open_account-IsServed account password name s s2 free e2))

pub register-IsServed :
    (crypto : Crypto) (payload : Registration) (actor_id salt : String) (s : AuthService)
    → IsServed s (register crypto payload actor_id salt s).1
unfolding register new_account
register-IsServed crypto payload actor_id salt s =
    let email = crypto.normal (value_or "" payload.email) in
    let home = home_of payload in
    let name = or_default payload.display_name (before_at email) in
    let password = or_default payload.password "" in
    let account = new_account crypto email password actor_id salt home in
    Checks-state (IsServed s) _ (raise_if (email == "") invalid_email) _ s (raise_if-Checks _ _)
      (IsServed-refl s)
      (λ _ given.
        Checks-state (IsServed s) _ (raise_if (has_key email s.accounts) user_already_exists) _ s
          (raise_if-Checks _ _) (IsServed-refl s)
          (λ _ free. enrolled_first payload home actor_id name s account password free))
