-- ===== src/Introspection/Columns.antt =====
-- The columns of `ir.model.fields`: introspector.py, from `_str_to_tuple` to `_coerce_int_or_none`, and the
-- `FieldSchema` of a row.
use godoo_py.Base.{
  ℤ, String, string_eq, Bool, true, false, not, ◌&&◌, ◌||◌, Option, none, some, List, [], ◌∷◌, ◌==◌,
  map, select, if◌then◌else◌, ok, err, ◌>>=◌,
}
use godoo_py.Base.Dict.{Dict, lookup}
use godoo_py.Value.{Value, null, bool, str, list, tuple, nil, cons, truthy, get, str_of}
use godoo_py.Faults.{type_error, value_error, Checked}
use godoo_py.Introspection.{Builtins, FieldSchema}

-- `text.split(",")`
unfoldable pub split_commas : String → List String
split_commas String.[] = "" ∷ []
split_commas (String.◌∷◌ c text) =
    let rest = split_commas text in
    if String.◌∷◌ c String.[] == ","
    then "" ∷ rest
    else elim rest [ [] ↦ [] | part ∷ parts ↦ String.◌∷◌ c part ∷ parts ]

-- `text.lstrip("() ")` and `text.rstrip("() ")`
abbrev is_bracket : String → Bool
is_bracket s = s == "(" || (s == ")" || s == " ")

unfoldable pub lstrip_brackets : String → String
lstrip_brackets String.[] = ""
lstrip_brackets (String.◌∷◌ c text) =
    let rest = lstrip_brackets text in
    if is_bracket (String.◌∷◌ c String.[]) then rest else String.◌∷◌ c text

unfoldable pub rstrip_brackets : String → String
rstrip_brackets String.[] = ""
rstrip_brackets (String.◌∷◌ c text) =
    let rest = rstrip_brackets text in
    if rest == "" && is_bracket (String.◌∷◌ c String.[]) then "" else String.◌∷◌ c rest

-- `except TypeError, ValueError: return None`
unfoldable pub caught : {A : Type 0} → Checked A → Checked (Option A)
caught (ok a) = ok (some a)
caught (err type_error) = ok none
caught (err value_error) = ok none
caught (err fault) = err fault

abbrev pub as_text : Value → Option String
as_text (str s) = if s == "" then none else some s
as_text v = none

module _ (builtins : Builtins) where
  -- `_str_to_tuple`
  unfoldable pub str_to_tuple : Value → List String
  str_to_tuple v = elim (as_text v) [
    | none ↦ []
    | some text ↦ select (λ part. not (part == "")) (map builtins.strip (split_commas text))
  ]

  -- `(int(a), int(b))`
  unfoldable pub int_pair : Value → Value → Checked (ℤ × ℤ)
  int_pair a b = do precision ← builtins.to_int a; scale ← builtins.to_int b; ok (precision, scale)

  unfoldable pub text_digits : List String → Checked (Option (ℤ × ℤ))
  text_digits (a ∷ b ∷ []) = caught (int_pair (str a) (str b))
  text_digits parts = ok none

  -- `_parse_digits`
  unfoldable pub parse_digits : Value → Checked (Option (ℤ × ℤ))
  parse_digits (list (cons a (cons b nil))) = caught (int_pair a b)
  parse_digits (tuple (cons a (cons b nil))) = caught (int_pair a b)
  parse_digits (str text) =
      if text == ""
      then ok none
      else text_digits (map builtins.strip (split_commas (lstrip_brackets (rstrip_brackets text))))
  parse_digits v = ok none

  -- `_coerce_int_or_none`
  unfoldable pub coerce_int_or_none : Value → Checked (Option ℤ)
  coerce_int_or_none v = if truthy v then caught (builtins.to_int v) else ok none

  -- `str(value or "")`
  abbrev pub text_or_empty : Value → String
  text_or_empty v = if truthy v then str_of builtins.printer v else ""

  -- `row.get(key, default)`
  abbrev get_or : String → Value → Dict String Value → Value
  get_or key default row = elim (lookup key row) [ none ↦ default | some v ↦ v ]

  -- `copied`, or `copy` in its place
  unfoldable pub copy_of : Dict String Value → Bool
  copy_of row = elim (get "copied" row) [
    | null ↦ elim (get_or "copy" (bool true) row) [ null ↦ true | v ↦ truthy v ]
    | v ↦ truthy v
  ]

  -- `a or b`
  abbrev or_value : Value → Value → Value
  or_value a b = if truthy a then a else b

  -- `FieldSchema` of a row with a name, under the selection values of its field
  unfoldable pub field_schema :
      String → List (String × String) → Dict String Value → Checked FieldSchema
  field_schema field_name selection row = do
    digits ← parse_digits (or_value (get "digits" row) (get "size" row))
    size ← coerce_int_or_none (get "size" row)
    ok (record {
      name = field_name;
      ttype =
          if truthy (get "ttype" row) then str_of builtins.printer (get "ttype" row) else "char";
      field_description = text_or_empty (get "field_description" row);
      relation = as_text (get "relation" row);
      relation_field = as_text (get "relation_field" row);
      required = truthy (get_or "required" (bool false) row);
      readonly = truthy (get_or "readonly" (bool false) row);
      store = truthy (get_or "store" (bool true) row);
      index = truthy (get_or "index" (bool false) row);
      copy = copy_of row;
      translate = truthy (get_or "translate" (bool false) row);
      help = text_or_empty (get "help" row);
      compute = as_text (get "compute" row);
      depends = str_to_tuple (get "depends" row);
      modules = str_to_tuple (get "modules" row);
      on_delete = as_text (get "on_delete" row);
      size = size;
      digits = digits;
      selection = selection;
    })
