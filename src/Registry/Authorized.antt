-- ===== src/Registry/Authorized.antt =====
-- Who gets a definition from `get_authorized`.
use alos_backend.Prelude.{
  String, ◌≡◌, refl, ◌∙◌, ap, Option, none, some, List, true, not, ◌==◌, string_eq, contains,
  is_subset, arith, key4_eq, ok, ◌>>=◌,
}
use alos_backend.Prelude.Entries.{All}
use alos_backend.Prelude.Sorting.{All-sort_by}
use alos_backend.Prelude.Dict.{get}
use alos_backend.Prelude.Sets.{distinct, text_before, distinct-All, subset-All}
use alos_backend.Prelude.Outcomes.{or_raise-ok, raise_if-ok, ok-eq, continue-ok}
use alos_backend.Json.{Json}
use alos_backend.Authorization.{Principal}
use alos_backend.Registry.State.{
  active, registry_state_eq, registry_state_iff, RegistryEntry, Kind, Registry, no_owner, no_risk,
  not_a_list, bad_references, version_not_found, other_organization, not_active_version,
}
use alos_backend.Registry.Authority.{
  RegistryAuthorityView, elements, all_texts, sorted_set, references_of, view_of, from_entry,
  owner_of, risk_of, tools_of, text_or_none, authorize, get_authorized,
}

-- The references of that name in the payload are texts, all of them among the principal's.
pub record Holds (kind : Kind) (name : String) (entry : RegistryEntry) (held : List String)
    : Type 0 where
  pub listed : List Json
  pub texts : List String
  pub elements_listed : elements (references_of kind name entry) ≡ some listed
  pub texts_listed : all_texts listed ≡ some texts
  pub all_held : All (λ text. contains text held ≡ true) texts

pub record IsAuthorized (kind : Kind) (principal : Principal) (subject version : String)
    (r : Registry) : Type 0 where
  pub entry : RegistryEntry
  pub found :
      get (principal.tenant_id, principal.workspace_id, subject, version) r.entries ≡ some entry
  pub is_active : entry.state ≡ active
  pub same_organization : entry.organization_id ≡ principal.organization_id
  pub principal_active : principal.active ≡ true
  pub permissions : Holds kind "permission_refs" entry principal.permissions
  pub scopes : Holds kind "scope_refs" entry principal.scopes

Holds-subset :
    (kind : Kind) (name : String) (entry : RegistryEntry) (held : List String) (listed : List Json)
    (texts : List String)
    → elements (references_of kind name entry) ≡ some listed
    → all_texts listed ≡ some texts
    → is_subset (sorted_set texts) held ≡ true
    → Holds kind name entry held
unfolding sorted_set
Holds-subset kind name entry held listed texts at given subset = record {
  listed = listed;
  texts = texts;
  elements_listed = at;
  texts_listed = given;
  all_held =
      distinct-All _ texts
        (All-sort_by text_before _ (distinct texts) (subset-All (sorted_set texts) held subset));
}

-- What `authorize` saw.
authorize-ok :
    (view view' : RegistryAuthorityView) (principal : Principal) (r r' : Registry)
    → authorize view principal r ≡ (ok view', r')
    → (principal.active ≡ true)
      × (is_subset view.permissions principal.permissions ≡ true)
      × (is_subset view.scope principal.scopes ≡ true)
unfolding authorize
authorize-ok view view' principal r r' h = (ground arith, ground arith, ground arith)

-- What a reading of an entry then asks of the principal.
read-Holds :
    (kind : Kind) (entry : RegistryEntry) (principal : Principal) (r r' : Registry)
    (view : RegistryAuthorityView)
    → (from_entry kind entry >>= λ read. authorize read principal) r ≡ (ok view, r')
    → (principal.active ≡ true)
      × Holds kind "permission_refs" entry principal.permissions
      × Holds kind "scope_refs" entry principal.scopes
unfolding from_entry view_of
read-Holds kind entry principal r r' view h =
    let (read, s, from, h0) =
      continue-ok (from_entry kind entry r) (λ v. authorize v principal) r' view h in
    let (owner, owned, f0) =
      or_raise-ok (text_or_none (owner_of kind entry)) no_owner _ r s read from in
    let (risk, risked, f1) =
      or_raise-ok (text_or_none (risk_of kind entry)) no_risk _ r s read f0 in
    let (tools, tools_at, f2) =
      or_raise-ok (elements (tools_of kind entry)) not_a_list _ r s read f1 in
    let (permissions, permissions_at, f3) =
      or_raise-ok (elements (references_of kind "permission_refs" entry)) not_a_list _ r s read
        f2 in
    let (scope, scope_at, f4) =
      or_raise-ok (elements (references_of kind "scope_refs" entry)) not_a_list _ r s read f3 in
    let (tool_texts, tools_given, f5) =
      or_raise-ok (all_texts tools) bad_references _ r s read f4 in
    let (permission_texts, permissions_given, f6) =
      or_raise-ok (all_texts permissions) bad_references _ r s read f5 in
    let (scope_texts, scope_given, f7) =
      or_raise-ok (all_texts scope) bad_references _ r s read f6 in
    let made : view_of entry owner risk tool_texts permission_texts scope_texts ≡ read = ok-eq f7 in
    let (is_on, permitted, reached) = authorize-ok read view principal s r' h0 in
    (
      is_on,
      Holds-subset kind "permission_refs" entry principal.permissions permissions permission_texts
          permissions_at permissions_given
          (ap (λ (v : RegistryAuthorityView). is_subset v.permissions principal.permissions) made
            ∙ permitted),
      Holds-subset kind "scope_refs" entry principal.scopes scope scope_texts scope_at scope_given
          (ap (λ (v : RegistryAuthorityView). is_subset v.scope principal.scopes) made ∙ reached),
    )

-- Where `get_authorized` gives a definition, the principal is there and active, and the registry
-- has under the principal's tenant and workspace an ACTIVE version of the subject, of the
-- principal's organization, of whose references each permission and each scope is one of the
-- principal's own.
pub get_authorized-IsAuthorized :
    (kind : Kind) (principal : Option Principal) (subject version : String) (r r' : Registry)
    (view : RegistryAuthorityView)
    → get_authorized kind principal subject version r ≡ (ok view, r')
    → (asker : Principal) × (principal ≡ some asker) × IsAuthorized kind asker subject version r
unfolding get_authorized
get_authorized-IsAuthorized kind none subject version r r' view h = cc
get_authorized-IsAuthorized kind (some principal) subject version r r' view h =
    let (entry, found, h1) =
      or_raise-ok (get (principal.tenant_id, principal.workspace_id, subject, version) r.entries)
        version_not_found _ r r' view h in
    let (same, h2) =
      raise_if-ok (not (entry.organization_id == principal.organization_id)) other_organization _ r
        r' view h1 in
    let (on, h3) = raise_if-ok (not (entry.state == active)) not_active_version _ r r' view h2 in
    let (is_on, permissions, scopes) = read-Holds kind entry principal r r' view h3 in
    (
      principal,
      refl,
      record {
        entry = entry;
        found = found;
        is_active = (registry_state_iff entry.state active).0 (ground arith);
        same_organization =
            (string_eq.beq_iff entry.organization_id principal.organization_id).0 (ground arith);
        principal_active = is_on;
        permissions = permissions;
        scopes = scopes;
      },
    )
