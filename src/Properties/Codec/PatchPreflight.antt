-- ===== src/Properties/Codec/PatchPreflight.antt =====
-- A patch that passes validation can be encoded together with the values it changes.
use godoo_py.Base.{
  String, ◌≡◌, Bool, true, false, not, List, [], ◌∷◌, string_eq, all, ok, err, arith, All,
  >>=-eq-ok, Option-cases, inl, inr, check,
}
use godoo_py.Base.Dict.{Dict, insert, contains, merge}
use godoo_py.Value.{Value, null}
use godoo_py.Faults.{property_value, property_lookup}
use godoo_py.Properties.Types.{PropertyDefinition, get_definition, is_found}
use godoo_py.Properties.Codec.Values.{Calendar, value_for, kind_of, unset_value}
use godoo_py.Properties.Codec.Parse.{is_some}
use godoo_py.Properties.Codec.RoundTrip.{value_for_idem, value_for-null}
use godoo_py.Properties.Codec.Records.{
  decode_values, encode_values, patch_value, patch_change, patch_from, patch_values, is_ambiguous,
}
use godoo_py.Properties.Codec.Preflight.{
  AtDefinition, IsEncodable, All-insert, All-merge, decode_values-IsDecoded, encode_values_total,
  IsDecoded→IsEncodable,
}

module _ (calendar : Calendar) (definitions : List PropertyDefinition) where
  -- Clearing a property, by `None`, needs a supported kind.
  abbrev pub is_clearable : String × Value → Bool
  is_clearable (name, null) = elim (get_definition definitions name) [
    | ok d ↦ is_some (kind_of d.type)
    | err _ ↦ true
  ]
  is_clearable (name, v) = true

  null-IsEncodable :
      (d : PropertyDefinition)
      → is_some (kind_of d.type) ≡ true
      → IsEncodable calendar definitions d null
  null-IsEncodable d h = elim (Option-cases (kind_of d.type)) [
    | inl e ↦ absurd (ground arith)
    | inr (kind, e) ↦ (unset_value kind false, value_for-null calendar d kind e)
  ]

  written-IsEncodable :
      (d : PropertyDefinition) (v w : Value)
      → value_for calendar d v false ≡ ok w
      → IsEncodable calendar definitions d w
  written-IsEncodable d v w h = (w, value_for_idem calendar d v w h)

  patch_value-IsEncodable :
      (d : PropertyDefinition) (name : String) (v w : Value)
      → get_definition definitions name ≡ ok d
      → is_clearable (name, v) ≡ true
      → patch_value calendar definitions d v ≡ ok w
      → IsEncodable calendar definitions d w
  unfolding patch_value
  patch_value-IsEncodable d name null w known c h =
      let same : null ≡ w = ground arith in
      rw (← same) (null-IsEncodable d (rw (known, is_clearable) at c))
  patch_value-IsEncodable d name v w known c h = written-IsEncodable d v w h

  patch_change-IsEncodable :
      (r : Dict String Value) (name : String) (v : Value) (r' : Dict String Value)
      → All (AtDefinition (IsEncodable calendar definitions) definitions) r
      → is_clearable (name, v) ≡ true
      → patch_change calendar definitions r name v ≡ ok r'
      → All (AtDefinition (IsEncodable calendar definitions) definitions) r'
  unfolding patch_change
  patch_change-IsEncodable r name v r' a c h =
      let (_, _, h1) =
        >>=-eq-ok (check (is_found (get_definition definitions name)) property_lookup) _ h in
      let (_, _, h2) = >>=-eq-ok (check (not (contains name r)) property_value) _ h1 in
      let (d, known, h3) = >>=-eq-ok (get_definition definitions name) _ h2 in
      let (_, _, h4) =
        >>=-eq-ok (check (not (is_ambiguous calendar definitions d v)) property_value) _ h3 in
      let (w, patched, h5) = >>=-eq-ok (patch_value calendar definitions d v) _ h4 in
      let same : insert name w r ≡ r' = ground arith in
      rw (← same) (
        All-insert (AtDefinition (IsEncodable calendar definitions) definitions) name w r
          (d, known, patch_value-IsEncodable d name v w known c patched) a)

  patch_from-IsEncodable :
      (r c r' : Dict String Value)
      → All (AtDefinition (IsEncodable calendar definitions) definitions) r
      → all is_clearable c ≡ true
      → patch_from calendar definitions r c ≡ ok r'
      → All (AtDefinition (IsEncodable calendar definitions) definitions) r'
  unfolding patch_from
  patch_from-IsEncodable r [] r' a clear h = let same : r ≡ r' = ground arith in rw (← same) a
  patch_from-IsEncodable r ((name, v) ∷ c) r' a clear h =
      let (r1, one, rest) = >>=-eq-ok (patch_change calendar definitions r name v) _ h in
      patch_from-IsEncodable r1 c r' (patch_change-IsEncodable r name v r1 a (ground arith) one)
        (ground arith) rest

-- Once a record has been decoded and a patch that clears only properties of supported kinds has been
-- validated, the merged values can be encoded: no untouched value makes the write fail.
pub encode_values-merge-patch_values :
    (calendar : Calendar) (definitions : List PropertyDefinition) (raw : Value)
    (changes current patched : Dict String Value)
    → decode_values calendar definitions raw ≡ ok current
    → patch_values calendar definitions changes ≡ ok patched
    → all (is_clearable calendar definitions) changes ≡ true
    → (payload : Dict String Value) × (encode_values calendar definitions (merge current patched)
        ≡ ok payload)
unfolding patch_values
encode_values-merge-patch_values calendar definitions raw changes current patched read valid clear =
    encode_values_total calendar definitions (merge current patched) (
      All-merge calendar definitions (AtDefinition (IsEncodable calendar definitions) definitions)
        current patched
        (IsDecoded→IsEncodable calendar definitions current
          (decode_values-IsDecoded calendar definitions raw current read))
        (patch_from-IsEncodable calendar definitions [] changes patched tt clear valid))
