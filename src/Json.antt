-- ===== src/Json.antt =====
-- JSON values: the payloads of contracts and the metadata of audit events. A number is kept as its
-- literal, since the program never computes with one.
use alos_backend.Prelude.{String, Option, none, some, ◌==◌, string_eq, if◌then◌else◌, Bool}

mutual
  pub data Json : Type 0 where
    null : Json
    boolean : Bool → Json
    number : String → Json
    string : String → Json
    array : Items → Json
    object : Fields → Json

  pub data Items : Type 0 where
    nil : Items
    cons : Json → Items → Items

  pub data Fields : Type 0 where
    end : Fields
    field : String → Json → Fields → Fields

-- `fields.get(name)`
unfoldable pub get_field : String → Fields → Option Json
get_field name end = none
get_field name (field key value rest) = if name == key then some value else get_field name rest

-- An object with one text member.
abbrev pub one_text : String → String → Fields
one_text key value = field key (string value) end

-- An object with two text members.
abbrev pub two_texts : String → String → String → String → Fields
two_texts key value key' value' = field key (string value) (one_text key' value')
