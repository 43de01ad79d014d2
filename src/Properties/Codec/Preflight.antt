-- ===== src/Properties/Codec/Preflight.antt =====
-- What decoding and patching accept can always be encoded.
use mathlib.Core.Path.{subst, subst₂}
use godoo_py.Base.{
  String, ◌≡◌, refl, ◌⊎◌, true, false, not, List, [], ◌∷◌, ◌==◌, string_eq, if◌then◌else◌, ◌&&◌,
  check, require, elem, ok, arith, All, >>=-eq-ok, Bool-cases, eq→path, inl, inr,
}
use godoo_py.Base.Dict.{Dict, insert, lookup, merge}
use godoo_py.Value.{as_dict, as_str, as_list, get, is_unset, Value}
use godoo_py.Faults.{property_value}
use godoo_py.Properties.Types.{PropertyDefinition, is_found, get_definition}
use godoo_py.Properties.Codec.Values.{Calendar, value_for}
use godoo_py.Properties.Codec.RoundTrip.{value_for-roundtrip}
use godoo_py.Properties.Codec.Records.{
  decode_known, decode_entry, decode_entries, decode_values, encode_values, is_separator,
  same_metadata,
}

-- A property's entry satisfies `P` at the definition of its name.
abbrev pub AtDefinition :
    (PropertyDefinition → Value → Type 0) → List PropertyDefinition → String × Value → Type 0
AtDefinition P definitions (name, w) =
    (d : PropertyDefinition) × (get_definition definitions name ≡ ok d) × P d w

pub All-insert :
    (P : String × Value → Type 0) (name : String) (w : Value) (r : Dict String Value)
    → P (name, w)
    → All P r
    → All P (insert name w r)
All-insert P name w [] h a = (h, tt)
All-insert P name w ((j, v) ∷ r) h a = elim (Bool-cases (name == j)) [
  | inl e ↦ rw e (subst (λ (k : String). P (k, w)) (eq→path name j e) h, a.1)
  | inr e ↦ rw e (a.0, All-insert P name w r h a.1)
]

module _ (calendar : Calendar) (definitions : List PropertyDefinition) where
  abbrev pub IsEncodable : PropertyDefinition → Value → Type 0
  IsEncodable d w = (x : Value) × (value_for calendar d w false ≡ ok x)

  -- The property is no separator, and the value was read by its definition.
  abbrev pub IsDecoded : PropertyDefinition → Value → Type 0
  IsDecoded d w = (is_separator d ≡ false) × (v : Value) × (value_for calendar d v true ≡ ok w)

  pub decode_known_cases :
      (d : PropertyDefinition) (name : String) (entry r r' : Dict String Value)
      → decode_known calendar definitions d name entry r ≡ ok r'
      → ((is_separator d ≡ true) × (r' ≡ r))
        ⊎ ((v w : Value) × (is_separator d ≡ false)
            × (value_for calendar d v true ≡ ok w)
            × (r' ≡ insert name w r))
  unfolding decode_known
  decode_known_cases d name entry r r' h = elim (Bool-cases (is_separator d)) [
    | inl e ↦ inl (e, ground arith)
    | inr e ↦
        let (_, _, h1) =
          >>=-eq-ok (check (same_metadata d entry) property_value) _ (rw (e, decode_known) at h) in
        let (v, _, h2) = >>=-eq-ok (require (lookup "value" entry) property_value) _ h1 in
        let (w, read, h3) = >>=-eq-ok (value_for calendar d v true) _ h2 in
        inr (v, w, e, read, ground arith)
  ]

  decode_known-IsDecoded :
      (d : PropertyDefinition) (name : String) (entry r r' : Dict String Value)
      → get_definition definitions name ≡ ok d
      → All (AtDefinition IsDecoded definitions) r
      → decode_known calendar definitions d name entry r ≡ ok r'
      → All (AtDefinition IsDecoded definitions) r'
  decode_known-IsDecoded d name entry r r' known a h =
      elim (decode_known_cases d name entry r r' h) [
        | inl (_, e) ↦ rw e a
        | inr (v, w, plain, read, e) ↦ rw e (
            All-insert (AtDefinition IsDecoded definitions) name w r (d, known, (plain, v, read)) a)
      ]

  -- A decoded entry has a known name, under which its definition was applied.
  pub decode_entry_parts :
      (seen : List String) (r : Dict String Value) (v : Value) (name : String)
      (r' : Dict String Value)
      → decode_entry calendar definitions seen r v ≡ ok (name, r')
      → (d : PropertyDefinition) × (entry : Dict String Value) × (get_definition definitions name
          ≡ ok d)
        × (decode_known calendar definitions d name entry r ≡ ok r')
  unfolding decode_entry
  decode_entry_parts seen r v name r' h =
      let (entry, _, h1) = >>=-eq-ok (require (as_dict v) property_value) _ h in
      let (key, _, h2) = >>=-eq-ok (require (as_str (get "name" entry)) property_value) _ h1 in
      let (_, _, h3) =
        >>=-eq-ok
          (check (not (elem key seen) && is_found (get_definition definitions key)) property_value)
          _ h2 in
      let (d, known, h4) = >>=-eq-ok (get_definition definitions key) _ h3 in
      let (r'', step, h5) = >>=-eq-ok (decode_known calendar definitions d key entry r) _ h4 in
      let same_name : key ≡ name = ground arith in
      let same : r'' ≡ r' = ground arith in
      (
        d,
        entry,
        subst (λ (n : String). get_definition definitions n ≡ ok d) same_name known,
        subst₂
            (λ (n : String) (x : Dict String Value).
              decode_known calendar definitions d n entry r ≡ ok x)
            same_name same step,
      )

  decode_entry-IsDecoded :
      (seen : List String) (r : Dict String Value) (v : Value) (name : String)
      (r' : Dict String Value)
      → All (AtDefinition IsDecoded definitions) r
      → decode_entry calendar definitions seen r v ≡ ok (name, r')
      → All (AtDefinition IsDecoded definitions) r'
  decode_entry-IsDecoded seen r v name r' a h =
      let (d, entry, known, step) = decode_entry_parts seen r v name r' h in
      decode_known-IsDecoded d name entry r r' known a step

  decode_entries-IsDecoded :
      (seen : List String) (r : Dict String Value) (vs : List Value) (seen' : List String)
      (r' : Dict String Value)
      → All (AtDefinition IsDecoded definitions) r
      → decode_entries calendar definitions seen r vs ≡ ok (seen', r')
      → All (AtDefinition IsDecoded definitions) r'
  unfolding decode_entries
  decode_entries-IsDecoded seen r [] seen' r' a h =
      let same : r ≡ r' = ground arith in rw (← same) a
  decode_entries-IsDecoded seen r (v ∷ vs) seen' r' a h =
      let (step, one, rest) = >>=-eq-ok (decode_entry calendar definitions seen r v) _ h in
      decode_entries-IsDecoded (step.0 ∷ seen) step.1 vs seen' r'
        (decode_entry-IsDecoded seen r v step.0 step.1 a one) rest

  pub decode_values-IsDecoded :
      (raw : Value) (r : Dict String Value)
      → decode_values calendar definitions raw ≡ ok r
      → All (AtDefinition IsDecoded definitions) r
  unfolding decode_values
  decode_values-IsDecoded raw r h =
      let (vs, _, h1) =
        >>=-eq-ok (if is_unset raw then ok [] else require (as_list raw) property_value) _ h in
      let (done, run, h2) = >>=-eq-ok (decode_entries calendar definitions [] [] vs) _ h1 in
      let same : done.1 ≡ r = ground arith in
      rw (← same) (decode_entries-IsDecoded [] [] vs done.0 done.1 tt run)

  pub encode_values_total :
      (r : Dict String Value)
      → All (AtDefinition IsEncodable definitions) r
      → (p : Dict String Value) × (encode_values calendar definitions r ≡ ok p)
  unfolding encode_values
  encode_values_total [] a = ([], refl)
  encode_values_total ((name, w) ∷ r) a =
      let (d, known, (x, written)) = a.0 in
      let (p, rest) = encode_values_total r a.1 in ((name, x) ∷ p, rw (known, written, rest))

  pub IsDecoded→IsEncodable :
      (r : Dict String Value)
      → All (AtDefinition IsDecoded definitions) r
      → All (AtDefinition IsEncodable definitions) r
  IsDecoded→IsEncodable [] a = tt
  IsDecoded→IsEncodable ((name, w) ∷ r) a =
      let (d, known, (plain, v, read)) = a.0 in
      let (x, written, _) = value_for-roundtrip calendar d v w read in
      ((d, known, (x, written)), IsDecoded→IsEncodable r a.1)

  pub All-merge :
      (P : String × Value → Type 0) (r c : Dict String Value)
      → All P r
      → All P c
      → All P (merge r c)
  All-merge P r [] a b = a
  All-merge P r ((name, w) ∷ c) a b =
      All-merge P (insert name w r) c (All-insert P name w r b.0 a) b.1
