-- ===== src/Registry/Authority.antt =====
-- registry_contracts.py: what a definition asks of a principal, and `get_authorized`.
use alos_backend.Prelude.{
  String, Option, none, some, List, [], ◌∷◌, Bool, true, false, not, ◌&&◌, ◌||◌, ◌==◌, string_eq,
  is_subset, is_truthy, is_blank, if◌then◌else◌, pure, raise, or_raise, raise_if, ◌>>=◌, ◌>>◌,
}
use alos_backend.Prelude.Sorting.{sort_by}
use alos_backend.Prelude.Sets.{distinct, text_before}
use alos_backend.Json.{
  Json, null, boolean, number, string, array, object, Items, nil, cons, Fields, end, field,
  get_field,
}
use alos_backend.Authorization.{Principal}
use alos_backend.Registry.State.{
  RegistryState, active, registry_state_eq, RegistryEntry, principal_required, other_organization,
  not_active_version, no_owner, no_risk, bad_references, not_a_list, principal_inactive,
  principal_outside, no_scope_authority, lacks_permissions, lacks_scopes, Kind,
}
use alos_backend.Registry.Versions.{Method, find_version}

pub record RegistryAuthorityView : Type 0 where
  pub subject_type : String
  pub subject_id : String
  pub version : String
  pub lifecycle : RegistryState
  pub owner : String
  pub risk : String
  pub tools : List String
  pub permissions : List String
  pub scope : List String
  pub tenant_id : String
  pub organization_id : String
  pub workspace_id : String
  pub digest : String

-- Truth value of a JSON value
unfoldable pub is_true : (String → Bool) → Json → Bool
unfolding is_truthy
is_true nonzero null = false
is_true nonzero (boolean b) = b
is_true nonzero (number n) = nonzero n
is_true nonzero (string s) = is_truthy s
is_true nonzero (array nil) = false
is_true nonzero (array (cons item items)) = true
is_true nonzero (object end) = false
is_true nonzero (object (field key value rest)) = true

-- `a or b`, where a missing member counts as None
abbrev pub json_or : (String → Bool) → Option Json → Option Json → Option Json
json_or nonzero none b = b
json_or nonzero (some a) b = if is_true nonzero a then some a else b

abbrev pub items_list : Items → List Json
items_list nil = []
items_list (cons item items) = item ∷ items_list items

abbrev pub field_names : Fields → List Json
field_names end = []
field_names (field key value rest) = string key ∷ field_names rest

abbrev pub characters : String → List Json
characters String.[] = []
characters (String.◌∷◌ c s) = string (String.◌∷◌ c String.[]) ∷ characters s

-- what `*value` takes the elements of; None, a number and a Boolean are a TypeError
unfoldable pub elements : Json → Option (List Json)
elements (array items) = some (items_list items)
elements (object fields) = some (field_names fields)
elements (string s) = some (characters s)
elements null = none
elements (boolean b) = none
elements (number n) = none

-- `isinstance(value, str) and value.strip()`
unfoldable pub given_text : Json → Option String
given_text (string s) = if is_blank s then none else some s
given_text null = none
given_text (boolean b) = none
given_text (number n) = none
given_text (array items) = none
given_text (object fields) = none

abbrev pub cons_text : Option String → Option (List String) → Option (List String)
cons_text none found = none
cons_text (some first) none = none
cons_text (some first) (some found) = some (first ∷ found)

-- the references, where all of them are texts that are not blank
unfoldable pub all_texts : List Json → Option (List String)
unfolding given_text
all_texts [] = some []
all_texts (value ∷ rest) = cons_text (given_text value) (all_texts rest)

-- `sorted(set(texts))`
unfoldable pub sorted_set : List String → List String
unfolding distinct sort_by
sorted_set texts = sort_by text_before (distinct texts)

unfoldable pub owner_of : Kind → RegistryEntry → Option Json
unfolding is_true
owner_of kind entry =
    let named =
      json_or kind.nonzero (get_field "owner" entry.payload)
        (get_field "owner_actor_id" entry.payload) in
    if entry.subject_type == "skill"
    then json_or kind.nonzero named (some (string entry.created_by))
    else named

unfoldable pub risk_of : Kind → RegistryEntry → Option Json
unfolding is_true
risk_of kind entry =
    let named = get_field "risk_level" entry.payload in
    if entry.subject_type == "skill"
    then json_or kind.nonzero named (some (string "UNSPECIFIED"))
    else named

abbrev pub or_empty : Option Json → Json
or_empty none = array nil
or_empty (some value) = value

unfoldable pub tools_of : Kind → RegistryEntry → Json
unfolding is_true
tools_of kind entry =
    if entry.subject_type == "skill"
    then or_empty (get_field "required_tool_ids" entry.payload)
    else or_empty (
        json_or kind.nonzero (get_field "tool_ids" entry.payload)
          (json_or kind.nonzero (get_field "backing_tool_ids" entry.payload) (some (array nil))))

unfoldable pub references_of : Kind → String → RegistryEntry → Json
unfolding is_true
references_of kind name entry =
    or_empty (json_or kind.nonzero (get_field name entry.payload) (some (array nil)))

abbrev pub text_or_none : Option Json → Option String
text_or_none none = none
text_or_none (some value) = given_text value

unfoldable pub view_of :
    RegistryEntry
    → String
    → String
    → List String
    → List String
    → List String
    → RegistryAuthorityView
unfolding sorted_set
view_of entry owner risk tools permissions scope = record {
  subject_type = entry.subject_type;
  subject_id = entry.subject_id;
  version = entry.version;
  lifecycle = entry.state;
  owner = owner;
  risk = risk;
  tools = sorted_set tools;
  permissions = sorted_set permissions;
  scope = sorted_set scope;
  tenant_id = entry.tenant_id;
  organization_id = entry.organization_id;
  workspace_id = entry.workspace_id;
  digest = entry.digest;
}

-- `RegistryAuthorityView.from_entry`
unfoldable pub from_entry : Kind → RegistryEntry → Method RegistryAuthorityView
unfolding owner_of risk_of tools_of references_of elements all_texts
from_entry kind entry = do
  owner ← or_raise (text_or_none (owner_of kind entry)) no_owner
  risk ← or_raise (text_or_none (risk_of kind entry)) no_risk
  tools ← or_raise (elements (tools_of kind entry)) not_a_list
  permissions ← or_raise (elements (references_of kind "permission_refs" entry)) not_a_list
  scope ← or_raise (elements (references_of kind "scope_refs" entry)) not_a_list
  tool_texts ← or_raise (all_texts tools) bad_references
  permission_texts ← or_raise (all_texts permissions) bad_references
  scope_texts ← or_raise (all_texts scope) bad_references
  pure (view_of entry owner risk tool_texts permission_texts scope_texts)

abbrev pub is_none_of : List String → Bool
is_none_of [] = true
is_none_of (_ ∷ _) = false

-- `RegistryAuthorityView.authorize`
unfoldable pub authorize : RegistryAuthorityView → Principal → Method RegistryAuthorityView
authorize view principal = do
  raise_if (not principal.active) principal_inactive
  raise_if
      (not (principal.tenant_id == view.tenant_id)
        || (not (principal.organization_id == view.organization_id)
            || not (principal.workspace_id == view.workspace_id)))
      principal_outside
  raise_if (is_none_of view.scope && not (view.subject_type == "skill")) no_scope_authority
  raise_if (not (is_subset view.permissions principal.permissions)) lacks_permissions
  raise_if (not (is_subset view.scope principal.scopes)) lacks_scopes
  pure view

unfoldable pub get_authorized :
    Kind → Option Principal → String → String → Method RegistryAuthorityView
get_authorized kind none subject version = raise principal_required
get_authorized kind (some principal) subject version = do
  entry ← find_version (principal.tenant_id, principal.workspace_id, subject, version)
  raise_if (not (entry.organization_id == principal.organization_id)) other_organization
  raise_if (not (entry.state == active)) not_active_version
  view ← from_entry kind entry
  authorize view principal
