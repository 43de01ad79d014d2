-- ===== src/Properties/Tests.antt =====
-- Runs of the property codec and of dispatch at concrete inputs.
use godoo_py.Base.{
  pos, String, string_eq, int_eq, ◌≡◌, refl, true, false, none, some, List, [], ◌∷◌, ◌==◌, ok,
}
use godoo_py.Base.Dict.{Dict, merge}
use godoo_py.Value.{Value, null, bool, int, str, list, dict, nil, cons, end, field}
use godoo_py.Properties.Types.{PropertyDefinition, get_definition}
use godoo_py.Properties.Codec.Values.{Calendar, value_for, kind_of}
use godoo_py.Properties.Codec.RoundTrip.{value_for-roundtrip}
use godoo_py.Properties.Codec.Parse.{parse_definitions}
use godoo_py.Properties.Codec.Shape.{are_definitions, format_definitions, is_definition}
use godoo_py.Properties.Codec.ParseSound.{parse_definitions-are_definitions}
use godoo_py.Properties.Codec.ParseComplete.{parse_definitions-format}
use godoo_py.Properties.Codec.Records.{
  decode_values, decode_entries, decode_entry, decode_known, same_metadata, encode_values,
  patch_values, patch_from, patch_change, patch_value,
}
use godoo_py.Properties.Codec.PatchPreflight.{encode_values-merge-patch_values}

abbrev calendar : Calendar
calendar = record {
  is_date = λ s. s == "2024-02-29";
  is_datetime = λ s. s == "2024-02-29 12:00:00";
}

abbrev stage : PropertyDefinition
stage = record {
  id = "aa11";
  label = "Stage";
  type = "selection";
  comodel = none;
  options =
      record { id = "o1"; label = "New"; color = none }
      ∷ record { id = "o2"; label = "Done"; color = none }
      ∷ [];
}

abbrev owner : PropertyDefinition
owner = record {
  id = "bb22";
  label = "Owner";
  type = "many2one";
  comodel = some "res.users";
  options = [];
}

abbrev heading : PropertyDefinition
heading = record { id = "cc33"; label = "More"; type = "separator"; comodel = none; options = [] }

abbrev schema : List PropertyDefinition
schema = stage ∷ owner ∷ heading ∷ []

-- A relational value comes with its display name.
abbrev named_user : Value
named_user = list (cons (int (pos 7)) (cons (str "Anna") nil))

abbrev entry : String → String → Value → Value → Value
entry name type comodel value = dict (
    field "name" (str name)
      (field "type" (str type) (field "comodel" comodel (field "value" value end))))

abbrev raw_row : Value
raw_row = list (
    cons (entry "aa11" "selection" (bool false) (str "o1")) (
      cons (entry "cc33" "separator" (bool false) (bool false))
        (cons (entry "bb22" "many2one" (str "res.users") named_user) nil)))

abbrev decoded : Dict String Value
decoded = ("aa11", str "o1") ∷ ("bb22", int (pos 7)) ∷ []

abbrev changes : Dict String Value
changes = ("aa11", null) ∷ ("bb22", int (pos 9)) ∷ []

abbrev patched : Dict String Value
patched = ("aa11", null) ∷ ("bb22", int (pos 9)) ∷ []

decode_raw_row : decode_values calendar schema raw_row ≡ ok decoded
unfolding decode_values decode_entries decode_entry decode_known get_definition value_for
    same_metadata
decode_raw_row = refl

patch_changes : patch_values calendar schema changes ≡ ok patched
unfolding patch_values patch_from patch_change patch_value get_definition value_for
patch_changes = refl

encode_decoded : encode_values calendar schema decoded ≡ ok decoded
unfolding encode_values get_definition value_for
encode_decoded = refl

value_for-roundtrip_example :
    (x : Value) × (value_for calendar owner (int (pos 7)) false ≡ ok x)
    × (value_for calendar owner x true ≡ ok (int (pos 7)))
unfolding value_for
value_for-roundtrip_example = value_for-roundtrip calendar owner named_user (int (pos 7)) refl

schema_shape : are_definitions schema ≡ true
unfolding are_definitions is_definition
schema_shape = refl

parse_definitions-format_example : parse_definitions (format_definitions schema) ≡ ok schema
parse_definitions-format_example = parse_definitions-format schema schema_shape

parse_definitions-are_definitions_example : are_definitions schema ≡ true
parse_definitions-are_definitions_example =
    parse_definitions-are_definitions (format_definitions schema) schema
      (parse_definitions-format schema schema_shape)

encode_values-merge-patch_values_example :
    (payload : Dict String Value) × (encode_values calendar schema (merge decoded patched)
      ≡ ok payload)
unfolding get_definition kind_of
encode_values-merge-patch_values_example =
    encode_values-merge-patch_values calendar schema raw_row changes decoded patched decode_raw_row
      patch_changes refl
