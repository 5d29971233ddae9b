-- ===== src/Runs/Payloads.antt =====
-- What `AgentRunAuthority.begin` reads of the payloads of agents and skills.
use alos_backend.Prelude.{
  String, Option, none, some, List, [], ◌∷◌, Bool, true, false, ◌&&◌, Key2, string_eq, contains,
  if◌then◌else◌,
}
use alos_backend.Json.{Json, string, object, get_field}
use alos_backend.Registry.State.{RegistryEntry, text_of_json}
use alos_backend.Skills.Payloads.{members, lists_text}

abbrev pub shown_texts : (Json → String) → List Json → List String
shown_texts shown [] = []
shown_texts shown (value ∷ rest) = text_of_json shown value ∷ shown_texts shown rest

abbrev pub shown_all : (Json → String) → Option (List Json) → Option (List String)
shown_all shown none = none
shown_all shown (some values) = some (shown_texts shown values)

-- `str(item) for item in payload.get(name, [])`
unfoldable pub texts_in : (Json → String) → String → RegistryEntry → Option (List String)
unfolding text_of_json
texts_in shown name entry = shown_all shown (members name entry)

abbrev pub pair_of : (Json → String) → Option Json → Option Json → Option Key2
pair_of shown (some id) (some version) = some (text_of_json shown id, text_of_json shown version)
pair_of shown _ _ = none

-- `(str(item["skill_id"]), str(item["skill_version"]))`
abbrev pub reference_of : (Json → String) → Json → Option Key2
reference_of shown (object fields) =
    pair_of shown (get_field "skill_id" fields) (get_field "skill_version" fields)
reference_of shown _ = none

abbrev pub cons_reference : Option Key2 → Option (List Key2) → Option (List Key2)
cons_reference (some first) (some rest) = some (first ∷ rest)
cons_reference _ _ = none

abbrev pub all_references : (Json → String) → List Json → Option (List Key2)
all_references shown [] = some []
all_references shown (value ∷ rest) =
    cons_reference (reference_of shown value) (all_references shown rest)

abbrev pub references_of_all : (Json → String) → Option (List Json) → Option (List Key2)
references_of_all shown none = none
references_of_all shown (some values) = all_references shown values

-- the references in `payload.get("skill_refs", [])`
unfoldable pub references_in : (Json → String) → RegistryEntry → Option (List Key2)
unfolding text_of_json get_field
references_in shown entry = references_of_all shown (members "skill_refs" entry)

-- `frozenset(granted) & frozenset(values)`, and the granted texts that are in a list of values
unfoldable pub common : List String → List Json → List String
common [] values = []
common (text ∷ texts) values =
    let rest = common texts values in if lists_text text values then text ∷ rest else rest

-- `frozenset(values).issubset(texts)`
unfoldable pub all_texts_in : List Json → List String → Bool
all_texts_in [] texts = true
all_texts_in (string s ∷ values) texts = contains s texts && all_texts_in values texts
all_texts_in (_ ∷ values) texts = false
