-- ===== src/Skills/Payloads.antt =====
-- What `assign` reads of an agent's payload, and the payload of the draft.
use alos_backend.Prelude.{
  String, Option, none, some, List, [], ◌∷◌, ◌++◌, Bool, true, false, ◌&&◌, ◌||◌, ◌==◌, string_eq,
  is_given, if◌then◌else◌,
}
use alos_backend.Json.{
  Json, string, array, object, Items, nil, cons, Fields, end, field, get_field, two_texts,
}
use alos_backend.Registry.State.{RegistryEntry}
use alos_backend.Registry.Authority.{elements, or_empty}
use alos_backend.Skills.State.{AssignmentRequest}
use alos_backend.Skills.Minor.{next_minor}

abbrev pub is_text_member : Option Json → String → Bool
is_text_member (some (string given)) text = given == text
is_text_member _ text = false

abbrev pub has_two : Fields → Bool
has_two (field _ _ (field _ _ end)) = true
has_two _ = false

-- `{"skill_id": skill_id, "skill_version": skill_version} == value`
unfoldable pub is_reference : String → String → Json → Bool
is_reference skill_id skill_version (object fields) =
    has_two fields
    && (is_text_member (get_field "skill_id" fields) skill_id
        && is_text_member (get_field "skill_version" fields) skill_version)
is_reference skill_id skill_version _ = false

-- `reference in refs`
unfoldable pub has_reference : String → String → List Json → Bool
unfolding is_reference
has_reference skill_id skill_version [] = false
has_reference skill_id skill_version (ref ∷ refs) =
    is_reference skill_id skill_version ref || has_reference skill_id skill_version refs

-- a list and a dictionary have no hash
abbrev pub all_hashable : List Json → Bool
all_hashable [] = true
all_hashable (array _ ∷ rest) = false
all_hashable (object _ ∷ rest) = false
all_hashable (_ ∷ rest) = all_hashable rest

abbrev pub hashable : Option (List Json) → Option (List Json)
hashable none = none
hashable (some values) = if all_hashable values then some values else none

-- `list(payload.get(name, []))`
abbrev pub members : String → RegistryEntry → Option (List Json)
members name agent = elements (or_empty (get_field name agent.payload))

-- `set(payload.get(name, []))`
abbrev pub set_of : String → RegistryEntry → Option (List Json)
set_of name agent = hashable (members name agent)

abbrev pub lists_text : String → List Json → Bool
lists_text text [] = false
lists_text text (value ∷ rest) = is_text_member (some value) text || lists_text text rest

-- `set(texts).issubset(values)`
unfoldable pub all_among : List String → List Json → Bool
all_among [] values = true
all_among (text ∷ texts) values = lists_text text values && all_among texts values

abbrev pub items_of : List Json → Items
items_of [] = nil
items_of (value ∷ rest) = cons value (items_of rest)

-- `fields[name] = value`
unfoldable pub put_field : String → Json → Fields → Fields
put_field name value end = field name value end
put_field name value (field key old rest) =
    let later = put_field name value rest in
    if name == key then field key value rest else field key old later

-- the payload of the draft
unfoldable pub draft_payload : AssignmentRequest → String → List Json → Fields → Fields
unfolding put_field
draft_payload ask version refs payload =
    let reference = object (two_texts "skill_id" ask.skill_id "skill_version" ask.skill_version) in
    put_field "skill_refs" (array (items_of (refs ++ reference ∷ [])))
      (put_field "agent_version" (string version) payload)

-- `proposed_agent_version or self._next_minor(agent_version)`
unfoldable pub draft_version : AssignmentRequest → Option String
draft_version ask =
    if is_given ask.proposed_agent_version
    then ask.proposed_agent_version
    else next_minor ask.agent_version
