-- ===== src/ParserService/Parsers/Json.antt =====
-- encoding/json: a value decoded into `any`. `Number` stands for float64.
use articleflow.Prelude.{◌==◌, if◌then◌else◌, none, some, Option, Bool, String}

mutual
  pub data Json (Number : Type 0) : Type 0 where
    null : Json Number
    boolean : Bool → Json Number
    number : Number → Json Number
    text : String → Json Number
    array : Items Number → Json Number
    object : Fields Number → Json Number

  pub data Items (Number : Type 0) : Type 0 where
    no_items : Items Number
    item : Json Number → Items Number → Items Number

  pub data Fields (Number : Type 0) : Type 0 where
    no_fields : Fields Number
    field : String → Json Number → Fields Number → Fields Number

module _ {Number : Type 0} where
  -- The value of a key, `null` where there is none; of equal keys the last one counts.
  abbrev pub found_or : Json Number → Option (Json Number) → Json Number
  found_or value none = value
  found_or value (some later) = later

  unfoldable pub find_field : String → Fields Number → Option (Json Number)
  find_field key no_fields = none
  find_field key (field name value fields) =
      let later = find_field key fields in
      if name == key then some (found_or value later) else later

  unfoldable pub get_field : String → Fields Number → Json Number
  unfolding find_field
  get_field key fields = found_or null (find_field key fields)

  -- value.(map[string]any), empty where the value is no object.
  abbrev pub fields_of : Json Number → Fields Number
  fields_of (object fields) = fields
  fields_of _ = no_fields

  -- value.([]any), empty where the value is no array.
  abbrev pub items_of : Json Number → Items Number
  items_of (array items) = items
  items_of _ = no_items
