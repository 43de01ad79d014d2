-- ===== src/Value.antt =====
-- The values that travel in RPC arguments and results: Python's JSON-like objects, typed `Any` in
-- the source, and the tests that the source makes on them.
use godoo_py.Base.{
  ℤ, is_zero, String, ◌≡◌, refl, Bool, true, false, Option, none, some, List, [], ◌∷◌, map, ok, err,
  ◌==◌, ◌&&◌, string_eq,
}
use godoo_py.Base.Dict.{Dict, lookup, keys}
use godoo_py.Faults.{type_error, key_error, other, Checked}

-- A double: mantissa times a power of two, an infinity with its sign, or not a number.
pub data Float : Type 0 where
  finite : ℤ → ℤ → Float
  infinite : Bool → Float
  nan : Float

-- `math.isfinite` of a float
abbrev pub is_finite : Float → Bool
is_finite (finite m e) = true
is_finite (infinite s) = false
is_finite nan = false

-- `null` is `None`. Lists of values stand in the same block as the values.
mutual
  pub data Value : Type 0 where
    null : Value
    bool : Bool → Value
    int : ℤ → Value
    float : Float → Value
    str : String → Value
    list : Values → Value
    tuple : Values → Value
    dict : Fields → Value

  pub data Values : Type 0 where
    nil : Values
    cons : Value → Values → Values

  pub data Fields : Type 0 where
    end : Fields
    field : String → Value → Fields → Fields

abbrev pub items : Values → List Value
items nil = []
items (cons v vs) = v ∷ items vs

abbrev pub of_items : List Value → Values
of_items [] = nil
of_items (v ∷ vs) = cons v (of_items vs)

abbrev pub entries : Fields → Dict String Value
entries end = []
entries (field k v fs) = (k, v) ∷ entries fs

abbrev pub of_entries : Dict String Value → Fields
of_entries [] = end
of_entries ((k, v) ∷ d) = field k v (of_entries d)

pub items-of_items : (vs : List Value) → items (of_items vs) ≡ vs
items-of_items [] = refl
items-of_items (v ∷ vs) = cc (items-of_items vs)

pub of_items-items : (vs : Values) → of_items (items vs) ≡ vs
of_items-items nil = refl
of_items-items (cons v vs) = cc (of_items-items vs)

pub entries-of_entries : (d : Dict String Value) → entries (of_entries d) ≡ d
entries-of_entries [] = refl
entries-of_entries ((k, v) ∷ d) = cc (entries-of_entries d)

-- `bool(value)`
abbrev pub truthy : Value → Bool
truthy null = false
truthy (bool b) = b
truthy (int n) = elim (is_zero n) [ true ↦ false | false ↦ true ]
truthy (float (finite m e)) = elim (is_zero m) [ true ↦ false | false ↦ true ]
truthy (float _) = true
truthy (str s) = elim (s == "") [ true ↦ false | false ↦ true ]
truthy (list nil) = false
truthy (list (cons v vs)) = true
truthy (tuple nil) = false
truthy (tuple (cons v vs)) = true
truthy (dict end) = false
truthy (dict (field k v fs)) = true

-- `value or None`
abbrev pub or_null : Value → Value
or_null v = elim (truthy v) [ true ↦ v | false ↦ null ]

-- `d.get(key)`: a missing key reads as `None`.
abbrev pub get : String → Dict String Value → Value
get k d = elim (lookup k d) [ none ↦ null | some v ↦ v ]

-- `isinstance(value, str)`
abbrev pub as_str : Value → Option String
as_str (str s) = some s
as_str _ = none

-- `isinstance(value, dict)`, on the values that JSON can hold also `isinstance(value, Mapping)`
abbrev pub as_dict : Value → Option (Dict String Value)
as_dict (dict fs) = some (entries fs)
as_dict _ = none

-- `type(value) is int`, which excludes the Booleans
abbrev pub as_int : Value → Option ℤ
as_int (int n) = some n
as_int _ = none

-- `isinstance(value, list)`
abbrev pub as_list : Value → Option (List Value)
as_list (list vs) = some (items vs)
as_list _ = none

-- `isinstance(value, (list, tuple))`
abbrev pub as_sequence : Value → Option (List Value)
as_sequence (list vs) = some (items vs)
as_sequence (tuple vs) = some (items vs)
as_sequence _ = none

-- `value is None or value is False`
abbrev pub is_unset : Value → Bool
is_unset null = true
is_unset (bool false) = true
is_unset _ = false

-- `value == text`
abbrev pub equals : Value → String → Bool
equals (str s) t = s == t
equals _ t = false

-- `hash(value)` does not raise TypeError.
unfoldable mutual
  pub is_hashable : Value → Bool
  is_hashable (list vs) = false
  is_hashable (dict fs) = false
  is_hashable (tuple vs) = are_hashable vs
  is_hashable _ = true

  pub are_hashable : Values → Bool
  are_hashable nil = true
  are_hashable (cons v vs) = is_hashable v && are_hashable vs

-- The characters of a text, each a text.
abbrev pub characters : String → List Value
characters String.[] = []
characters (String.◌∷◌ c s) = str (String.◌∷◌ c String.[]) ∷ characters s

-- `iter(value)`: a dict gives its keys, a text its characters; a scalar raises TypeError.
unfoldable pub iterate : Value → Checked (List Value)
iterate (list vs) = ok (items vs)
iterate (tuple vs) = ok (items vs)
iterate (dict fs) = ok (map str (keys (entries fs)))
iterate (str s) = ok (characters s)
iterate _ = err type_error

-- `value[0]`; for a JSON object that is a missing key, and for an empty list an `IndexError`.
unfoldable pub first_item : Value → Checked Value
first_item (list (cons v vs)) = ok v
first_item (list nil) = err other
first_item (tuple (cons v vs)) = ok v
first_item (tuple nil) = err other
first_item (str (String.◌∷◌ c s)) = ok (str (String.◌∷◌ c String.[]))
first_item (str String.[]) = err other
first_item (dict fs) = err key_error
first_item v = err type_error

-- `value[key]` at a text
unfoldable pub item : String → Value → Checked Value
item key (dict fs) = elim (lookup key (entries fs)) [ none ↦ err key_error | some v ↦ ok v ]
item key v = err type_error

-- `str(value)` of what is no text
pub record Printer : Type 0 where
  pub print : Value → String

-- `str(value)`
abbrev pub str_of : Printer → Value → String
str_of printer (str s) = s
str_of printer v = printer.print v
