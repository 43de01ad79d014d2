-- ===== src/Cdc/Columns.antt =====
-- The columns of `mail.tracking.value` in which the resolver looks for a value of each field type, by
-- its docstring, and that it finds it there. The types `text` and `html` are left out: their values
-- have columns of their own, which are requested and which the resolver does not read.
use godoo_py.Base.{ℤ, pos, String, string_eq, ◌≡◌, refl, Bool, true, false, [], ◌∷◌, ◌++◌, arith}
use godoo_py.Base.Dict.{Dict}
use godoo_py.Value.{Printer, Value, bool, int, float, str, Float}
use godoo_py.Cdc.{
  TypedValue, text_or_empty, shown_value, text_value, many2one_value, boolean_value, resolve_values,
}

-- The field types that are told apart, without `text` and `html`
pub data Kind : Type 0 where
  integers floats amounts chars selections datetimes dates links booleans : Kind

-- The value of a field of the type
abbrev pub Content : Kind → Type 0
Content integers = ℤ
Content floats = Float
Content amounts = Float
Content links = ℤ × String
Content booleans = Bool
Content _ = String

abbrev pub type_of : Kind → String
type_of integers = "integer"
type_of floats = "float"
type_of amounts = "monetary"
type_of chars = "char"
type_of selections = "selection"
type_of datetimes = "datetime"
type_of dates = "date"
type_of links = "many2one"
type_of booleans = "boolean"

-- The value in Python, with the text that is shown: of a link its ID with its name
abbrev pub typed : Printer → (k : Kind) → Content k → TypedValue
typed printer integers n = record { raw = int n; display = printer.print (int n) }
typed printer floats x = record { raw = float x; display = printer.print (float x) }
typed printer amounts x = record { raw = float x; display = printer.print (float x) }
typed printer chars s = record { raw = str s; display = s }
typed printer selections s = record { raw = str s; display = s }
typed printer datetimes s = record { raw = str s; display = s }
typed printer dates s = record { raw = str s; display = s }
typed printer links (i, name) = record { raw = int i; display = name }
typed printer booleans b = record { raw = bool b; display = printer.print (bool b) }

-- The columns of the old and of the new value
pub record Side : Type 0 where
  pub integer_column : String
  pub float_column : String
  pub char_column : String
  pub datetime_column : String

abbrev pub old_side : Side
old_side = record {
  integer_column = "old_value_integer";
  float_column = "old_value_float";
  char_column = "old_value_char";
  datetime_column = "old_value_datetime";
}

abbrev pub new_side : Side
new_side = record {
  integer_column = "new_value_integer";
  float_column = "new_value_float";
  char_column = "new_value_char";
  datetime_column = "new_value_datetime";
}

-- What is stored of one value
abbrev pub stored : Side → (k : Kind) → Content k → Dict String Value
stored side integers n = (side.integer_column, int n) ∷ []
stored side floats x = (side.float_column, float x) ∷ []
stored side amounts x = (side.float_column, float x) ∷ []
stored side chars s = (side.char_column, str s) ∷ []
stored side selections s = (side.char_column, str s) ∷ []
stored side datetimes s = (side.datetime_column, str s) ∷ []
stored side dates s = (side.datetime_column, str s) ∷ []
stored side links (i, name) = (side.integer_column, int i) ∷ (side.char_column, str name) ∷ []
stored side booleans true = (side.integer_column, int (pos 1)) ∷ []
stored side booleans false = (side.integer_column, int (pos 0)) ∷ []

-- The columns of both values, among which the other columns of the row come last.
abbrev pub tracking_row : (k : Kind) → Content k → Content k → Dict String Value → Dict String Value
tracking_row k old new others = stored old_side k old ++ (stored new_side k new ++ others)

text_or_empty-str : (printer : Printer) (s : String) → text_or_empty printer (str s) ≡ s
text_or_empty-str printer s = ground (arith, string_eq.beq_iff s "")

-- Of a row that stores an old and a new value of a field in the columns of its type, which is neither
-- `text` nor `html`, whatever other columns follow, the resolver gives both values with the texts that are to be shown.
pub resolve_values-stored :
    (printer : Printer) (k : Kind) (old new : Content k) (others : Dict String Value)
    → resolve_values printer (tracking_row k old new others) (type_of k)
      ≡ (typed printer k old, typed printer k new)
unfolding resolve_values shown_value text_value many2one_value boolean_value
resolve_values-stored printer integers old new others = refl
resolve_values-stored printer floats old new others = refl
resolve_values-stored printer amounts old new others = refl
resolve_values-stored printer chars old new others =
    simp (text_or_empty-str printer old, text_or_empty-str printer new)
resolve_values-stored printer selections old new others =
    simp (text_or_empty-str printer old, text_or_empty-str printer new)
resolve_values-stored printer datetimes old new others =
    simp (text_or_empty-str printer old, text_or_empty-str printer new)
resolve_values-stored printer dates old new others =
    simp (text_or_empty-str printer old, text_or_empty-str printer new)
resolve_values-stored printer links (i, old) (j, new) others =
    simp (text_or_empty-str printer old, text_or_empty-str printer new)
resolve_values-stored printer booleans true true others = refl
resolve_values-stored printer booleans true false others = refl
resolve_values-stored printer booleans false true others = refl
resolve_values-stored printer booleans false false others = refl
