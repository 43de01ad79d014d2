-- ===== src/Properties/Codec/Complete.antt =====
-- A decoded record has a value for every property that is no separator, and no other keys.
use godoo_py.Base.{
  String, ◌≡◌, Bool, true, false, List, [], ◌∷◌, ◌==◌, string_eq, if◌then◌else◌, elem, all, ok,
  arith, >>=-eq-ok, Bool-cases, eq→path, eq_refl, inl, inr, check, require, ◌||◌,
}
use godoo_py.Base.Dict.{Dict, contains, contains-insert}
use godoo_py.Value.{Value, as_list, is_unset}
use godoo_py.Faults.{property_value}
use godoo_py.Properties.Types.{PropertyDefinition, get_definition}
use godoo_py.Properties.Codec.Values.{Calendar}
use godoo_py.Properties.Codec.Records.{
  decode_known, decode_entry, decode_entries, decode_values, is_separator,
}
use godoo_py.Properties.Codec.Preflight.{decode_known_cases, decode_entry_parts}

-- A definition that is found under a name has that ID, and passes a test that all definitions pass.
pub get_definition-all :
    (p : PropertyDefinition → Bool) (ds : List PropertyDefinition) (name : String)
    (d : PropertyDefinition)
    → all p ds ≡ true
    → get_definition ds name ≡ ok d
    → (p d ≡ true) × (d.id ≡ name)
unfolding get_definition
get_definition-all p [] name d a h = absurd (ground arith)
get_definition-all p (x ∷ ds) name d a h = elim (Bool-cases (x.id == name)) [
  | inl e ↦
      let same : x ≡ d = ground arith in
      (rw (← same) (ground arith), rw (← same) (eq→path x.id name e))
  | inr e ↦ get_definition-all p ds name d (ground arith) (ground arith)
]

module _ (calendar : Calendar) (definitions : List PropertyDefinition) where
  -- Every property among `seen` that is no separator has a value.
  abbrev Covers : List String → Dict String Value → Type 0
  Covers seen r =
      (name : String) (d : PropertyDefinition)
      → elem name seen ≡ true
      → get_definition definitions name ≡ ok d
      → is_separator d ≡ false
      → contains name r ≡ true

  decode_known-contains :
      (d : PropertyDefinition) (key : String) (entry r r' : Dict String Value) (name : String)
      → decode_known calendar definitions d key entry r ≡ ok r'
      → contains name r ≡ true
      → contains name r' ≡ true
  decode_known-contains d key entry r r' name h c =
      elim (decode_known_cases calendar definitions d key entry r r' h) [
        | inl (_, e) ↦ rw e c
        | inr (v, w, _, _, e) ↦ rw e (ground (arith, contains-insert name key w r))
      ]

  decode_known-contains_self :
      (d : PropertyDefinition) (key : String) (entry r r' : Dict String Value)
      → decode_known calendar definitions d key entry r ≡ ok r'
      → is_separator d ≡ false
      → contains key r' ≡ true
  decode_known-contains_self d key entry r r' h plain =
      elim (decode_known_cases calendar definitions d key entry r r' h) [
        | inl (e, _) ↦ absurd (ground arith)
        | inr (v, w, _, _, e) ↦ rw e (ground (arith, contains-insert key key w r, eq_refl key))
      ]

  decode_entry-Covers :
      (seen : List String) (r : Dict String Value) (v : Value) (key : String)
      (r' : Dict String Value)
      → Covers seen r
      → decode_entry calendar definitions seen r v ≡ ok (key, r')
      → Covers (key ∷ seen) r'
  decode_entry-Covers seen r v key r' a h name d listed known plain =
      let (d', entry, known', step) = decode_entry_parts calendar definitions seen r v key r' h in
      elim (Bool-cases (name == key)) [
        | inl e ↦
            let same_name : name ≡ key = eq→path name key e in
            let same : d ≡ d' = ground arith in
            rw same_name (decode_known-contains_self d' key entry r r' step (rw (← same) plain))
        | inr e ↦
            decode_known-contains d' key entry r r' name step (a name d (ground arith) known plain)
      ]

  decode_entries-Covers :
      (seen : List String) (r : Dict String Value) (vs : List Value) (seen' : List String)
      (r' : Dict String Value)
      → Covers seen r
      → decode_entries calendar definitions seen r vs ≡ ok (seen', r')
      → Covers seen' r'
  unfolding decode_entries
  decode_entries-Covers seen r [] seen' r' a h = λ name d listed known plain.
      let same : r ≡ r' = ground arith in
      let same_seen : seen ≡ seen' = ground arith in
      rw (← same) (a name d (rw same_seen listed) known plain)
  decode_entries-Covers seen r (v ∷ vs) seen' r' a h =
      let (step, one, rest) = >>=-eq-ok (decode_entry calendar definitions seen r v) _ h in
      decode_entries-Covers (step.0 ∷ seen) step.1 vs seen' r'
        (decode_entry-Covers seen r v step.0 step.1 a one) rest

-- A record that is decoded has a value for every known property that is no separator.
decode_values-contains :
    (calendar : Calendar) (definitions : List PropertyDefinition) (raw : Value)
    (r : Dict String Value) (name : String) (d : PropertyDefinition)
    → decode_values calendar definitions raw ≡ ok r
    → get_definition definitions name ≡ ok d
    → is_separator d ≡ false
    → contains name r ≡ true
unfolding decode_values
decode_values-contains calendar definitions raw r name d h known plain =
    let (vs, _, h1) =
      >>=-eq-ok (if is_unset raw then ok [] else require (as_list raw) property_value) _ h in
    let (done, run, h2) = >>=-eq-ok (decode_entries calendar definitions [] [] vs) _ h1 in
    let (_, listed, h3) =
      >>=-eq-ok (check (all (λ x. elem x.id done.0 || is_separator x) definitions) property_value) _
        h2 in
    let same : done.1 ≡ r = ground arith in
    let (seen, named) =
      get_definition-all (λ x. elem x.id done.0 || is_separator x) definitions name d (ground arith)
        known in
    rw (← same) (
      decode_entries-Covers calendar definitions [] [] vs done.0 done.1
        (λ n x e. absurd (ground arith)) run name d (ground arith) known plain)
