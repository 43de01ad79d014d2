-- ===== src/Properties/Codec/Values.antt =====
-- `value_for`, `_display_pair` and `KINDS` of services/properties/codec.py.
use Prim.Native.Nat.{◌^◌}
use godoo_py.Base.{
  ℕ, suc, ◌-◌, ℤ, pos, negsuc, is_positive, String, Bool, true, false, ◌&&◌, Option, none, some,
  List, [], ◌∷◌, map, ◌==◌, string_eq, if◌then◌else◌, ltb, all, ok, err, check, ◌>>=◌, ◌>>◌,
}
use godoo_py.Value.{
  Value, null, bool, int, float, str, list, nil, items, of_items, is_finite, is_unset, as_sequence,
}
use godoo_py.Faults.{property_value, other, Checked}
use godoo_py.Properties.Types.{PropertyOption, PropertyDefinition, get_option, is_found}

-- `date.fromisoformat` and `datetime.fromisoformat` of Python: which texts they accept.
pub record Calendar : Type 0 where
  pub is_date : String → Bool
  pub is_datetime : String → Bool

-- `KINDS`
pub data Kind : Type 0 where
  boolean integer floating char date datetime many2one many2many selection tags : Kind

-- `kind in KINDS`, and the tests of `value_for` on it
unfoldable pub kind_of : String → Option Kind
kind_of t =
    if t == "boolean"
    then some boolean
    else if t == "integer"
    then some integer
    else if t == "float"
    then some floating
    else if t == "char"
    then some char
    else if t == "date"
    then some date
    else if t == "datetime"
    then some datetime
    else if t == "many2one"
    then some many2one
    else if t == "many2many"
    then some many2many
    else if t == "selection"
    then some selection
    else if t == "tags"
    then some tags
    else none

-- What stands for an unset property: `None` when reading, a wire value when writing.
unfoldable pub unset_value : Kind → Bool → Value
unset_value boolean reading = bool false
unset_value many2many reading = list nil
unset_value tags reading = list nil
unset_value kind reading = if reading then null else bool false

-- `_display_pair(value)`, giving `value[0]` of a pair
abbrev is_display_name : Value → Bool
is_display_name (str s) = true
is_display_name v = is_unset v

abbrev pair_id : List Value → Option Value
pair_id (int n ∷ name ∷ []) = if is_positive n && is_display_name name then some (int n) else none
pair_id _ = none

unfoldable pub display_pair : Value → Option Value
display_pair v = elim (as_sequence v) [ none ↦ none | some vs ↦ pair_id vs ]

-- `value[0] if _display_pair(value) else value`
unfoldable pub without_name : Value → Value
unfolding display_pair
without_name v = elim (display_pair v) [ none ↦ v | some n ↦ n ]

-- `type(item) is int and item > 0`
abbrev pub is_record_id : Value → Bool
is_record_id (int n) = is_positive n
is_record_id _ = false

-- `isinstance(value, str) and value in definition.options`
unfoldable pub is_option : List PropertyOption → Value → Bool
unfolding get_option
is_option options (str s) = is_found (get_option options s)
is_option options _ = false

abbrev magnitude : ℤ → ℕ
magnitude (pos n) = n
magnitude (negsuc n) = suc n

-- The integers that round to a finite double; `math.isfinite` raises OverflowError on any other.
unfoldable pub fits_float : ℤ → Bool
fits_float n = ltb (magnitude n) (2 ^ 1024 - 2 ^ 970)

-- The names that Odoo adds to relational values are dropped when reading.
unfoldable pub strip_names : Kind → Bool → Value → Value
unfolding without_name
strip_names many2one true v = without_name v
strip_names many2many true (list vs) = list (of_items (map without_name (items vs)))
strip_names _ _ v = v

module _ (calendar : Calendar) where
  -- `valid`, for a value that is set and stripped of names
  unfoldable pub is_valid : Kind → List PropertyOption → Value → Checked Bool
  unfolding is_option fits_float
  is_valid boolean options (bool b) = ok true
  is_valid integer options (int n) = ok true
  is_valid floating options (int n) = if fits_float n then ok true else err other
  is_valid floating options (float x) = ok (is_finite x)
  is_valid char options (str s) = ok true
  is_valid date options (str s) = ok (calendar.is_date s)
  is_valid datetime options (str s) = ok (calendar.is_datetime s)
  is_valid many2one options (int n) = ok (is_positive n)
  is_valid many2many options (list vs) = ok (all is_record_id (items vs))
  is_valid selection options v = ok (is_option options v)
  is_valid tags options (list vs) = ok (all (is_option options) (items vs))
  is_valid _ options _ = ok false

  unfoldable pub value_of_kind : Kind → List PropertyOption → Value → Bool → Checked Value
  unfolding is_valid unset_value strip_names
  value_of_kind kind options value reading =
      if is_unset value then ok (unset_value kind reading) else do
        let stripped = strip_names kind reading value
        valid ← is_valid kind options stripped
        check valid property_value
        ok stripped

  unfoldable pub value_for : PropertyDefinition → Value → Bool → Checked Value
  unfolding value_of_kind kind_of
  value_for definition value reading = elim (kind_of definition.type) [
    | none ↦ err property_value
    | some kind ↦ value_of_kind kind definition.options value reading
  ]
