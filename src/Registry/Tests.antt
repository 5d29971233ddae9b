-- ===== src/Registry/Tests.antt =====
-- The theorems at a registry of one subject with two versions.
use alos_backend.Prelude.{
  is_truthy, ℕ, String, ◌≡◌, refl, none, some, List, [], ◌∷◌, true, Key4, ok, key4_eq, or_else,
  is_blank, is_subset,
}
use alos_backend.Prelude.Dict.{get, insert}
use alos_backend.Prelude.Sorting.{sort_by, insert_sorted}
use alos_backend.Prelude.Comparing.{compare_lists}
use alos_backend.Json.{string, Fields, end, field, get_field, array, nil, cons}
use alos_backend.Audit.{AuditLog}
use alos_backend.Authorization.{Principal, own_assigned}
use alos_backend.Registry.State.{
  active, suspended, director, registry_state_beq, authority_of, RegistryEntry, Kind, Registry,
}
use alos_backend.Registry.Versions
use alos_backend.Registry.Versions.{
  Context, new_entry, transitioned, move_version, require_matching_context, supplied_differs,
  hydrate,
}
use alos_backend.Registry.Calls.{
  RegistryCall, register, approve, activate, suspend, apply, apply_all,
}
use alos_backend.Registry.Lifecycle.{approval_logged}
use alos_backend.Registry.Histories.{new_registry, IsKept, history-IsKept, history-approval_logged}
use alos_backend.Registry.Restart.{history-hydrate}
use alos_backend.Registry.Progress.{in_state, draft-progress}
use alos_backend.Registry.Authority.{
  RegistryAuthorityView, from_entry, authorize, view_of, get_authorized,
}
use alos_backend.Registry.Authorized.{IsAuthorized, get_authorized-IsAuthorized}
use alos_backend.Registry.Listing.{latest_entry, list_entries, with_keys, entries_in, in_context}
use alos_backend.Registry.Version.{semver}
use alos_backend.Registry.Precedence.{compare_versions}
use alos_backend.Registry.Latest.{IsLatest, latest_entry-IsLatest}

abbrev kind : Kind
kind = record {
  subject_type = "agent";
  id_field = "agent_id";
  version_field = "agent_version";
  accepts = λ payload. true;
  digest = λ payload. "digest";
  shown = λ value. "shown";
  nonzero = λ literal. true;
}

abbrev definition : String → Fields
definition version = field "agent_id" (string "a1") (
    field "agent_version" (string version) (
      field "owner" (string "alice") (
        field "risk_level" (string "LOW") (
          field "permission_refs" (array (cons (string "job.run") nil))
            (field "scope_refs" (array (cons (string "sales") nil)) end)))))

abbrev context : Context
context = record {
  tenant_id = "t1";
  organization_id = "o1";
  workspace_id = "w1";
  actor_id = "alice";
  correlation_id = "c1";
}

abbrev first_key : Key4
first_key = ("t1", "w1", "a1", "1.9.0")

abbrev calls : List (RegistryCall × ℕ)
calls =
    (register (definition "1.9.0") context, 1)
    ∷ (register (definition "1.10.0") context, 2)
    ∷ (approve first_key "bob" "d1" "IT" "c2", 3)
    ∷ (activate first_key "carol" "r1" "c3", 4)
    ∷ []

abbrev after : Registry
after = apply_all kind calls (new_registry (some []))

abbrev first_draft : RegistryEntry
first_draft = new_entry kind (definition "1.9.0") context "a1" "1.9.0" 1

abbrev first_active : RegistryEntry
first_active = record first_draft {
  state = active;
  correlation_id = "c3";
  decision_id = some "d1";
  release_id = some "r1";
}

first_found : get first_key after.entries ≡ some first_active
unfolding get insert get_field new_entry transitioned move_version require_matching_context
    supplied_differs apply apply_all Versions.register Versions.approve Versions.activate
    authority_of registry_state_beq or_else
first_found = refl

abbrev further : List (RegistryCall × ℕ)
further = (suspend first_key "carol" "c4", 5) ∷ (register (definition "1.9.0") context, 6) ∷ []

history-IsKept_example :
    (later : RegistryEntry) × (get first_key (apply_all kind further after).entries ≡ some later)
    × IsKept first_active later
history-IsKept_example =
    history-IsKept kind (some []) calls further first_key first_active first_found

history-approval_logged_example :
    (kept : AuditLog) × (after.log ≡ some kept) × (approval_logged first_key kept ≡ true)
history-approval_logged_example =
    history-approval_logged kind [] calls first_key first_active first_found refl

history-hydrate_example : hydrate kind after ≡ (ok tt, after)
history-hydrate_example = history-hydrate kind (some []) calls

abbrev alice : Principal
alice = record {
  actor_id = "alice";
  tenant_id = "t1";
  organization_id = "o1";
  workspace_id = "w1";
  permissions = "job.run" ∷ [];
  scopes = "sales" ∷ [];
  roles = [];
  data_scope = own_assigned;
  division_id = none;
  project_id = none;
  active = true;
}

abbrev first_view : RegistryAuthorityView
first_view = record {
  subject_type = "agent";
  subject_id = "a1";
  version = "1.9.0";
  lifecycle = active;
  owner = "alice";
  risk = "LOW";
  tools = [];
  permissions = "job.run" ∷ [];
  scope = "sales" ∷ [];
  tenant_id = "t1";
  organization_id = "o1";
  workspace_id = "w1";
  digest = "digest";
}

first_given : get_authorized kind (some alice) "a1" "1.9.0" after ≡ (ok first_view, after)
unfolding get insert get_field new_entry transitioned move_version require_matching_context
    supplied_differs apply apply_all Versions.register Versions.approve Versions.activate
    authority_of registry_state_beq or_else get_authorized from_entry is_blank authorize view_of
    insert_sorted is_subset
first_given = refl

get_authorized-IsAuthorized_example :
    (asker : Principal) × (some alice ≡ some asker) × IsAuthorized kind asker "a1" "1.9.0" after
get_authorized-IsAuthorized_example =
    get_authorized-IsAuthorized kind (some alice) "a1" "1.9.0" after after first_view first_given

abbrev second_draft : RegistryEntry
second_draft = new_entry kind (definition "1.10.0") context "a1" "1.10.0" 2

second_latest : latest_entry "t1" "o1" "w1" "a1" after ≡ (ok second_draft, after)
unfolding get insert get_field new_entry transitioned move_version require_matching_context
    supplied_differs apply apply_all Versions.register Versions.approve Versions.activate
    authority_of registry_state_beq or_else latest_entry list_entries with_keys entries_in
    in_context semver sort_by insert_sorted compare_lists compare_versions
second_latest = refl

latest_entry-IsLatest_example : IsLatest "t1" "o1" "w1" "a1" after second_draft
latest_entry-IsLatest_example =
    latest_entry-IsLatest kind (some []) calls "t1" "o1" "w1" "a1" after second_draft second_latest

abbrev drafted : Registry
drafted = apply_all kind ((register (definition "1.9.0") context, 1) ∷ []) (new_registry (some []))

draft_found : get first_key drafted.entries ≡ some first_draft
unfolding get insert get_field new_entry require_matching_context supplied_differs apply apply_all
    Versions.register
draft_found = refl

director_named : authority_of "DIRECTOR" ≡ some director
unfolding authority_of
director_named = refl

given_decision : is_truthy "d1" ≡ true
unfolding is_truthy
given_decision = refl

given_release : is_truthy "r1" ≡ true
unfolding is_truthy
given_release = refl

draft-progress_example :
    let r1 = (Versions.approve first_key "bob" "d1" "DIRECTOR" "c1" 5 drafted).1 in
    let r2 = (Versions.activate first_key "bob" "r1" "c2" 5 r1).1 in
    let r3 = (Versions.suspend first_key "bob" "c3" 5 r2).1 in
    (get first_key r2.entries ≡ some (in_state first_draft active "c2" (some "d1") (some "r1")))
    × (get first_key r3.entries
        ≡ some (in_state first_draft suspended "c3" (some "d1") (some "r1")))
unfolding new_entry
draft-progress_example =
    draft-progress drafted first_key first_draft "bob" "d1" "DIRECTOR" "r1" "c1" "c2" "c3" 5
      director draft_found refl director_named given_decision given_release
