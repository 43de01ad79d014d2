-- ===== src/Properties/Codec/ParseSound.antt =====
-- Whatever the server sends, the definitions that are accepted have the shape that the rest of the
-- code relies on.
use godoo_py.Base.{
  String, ◌≡◌, Bool, true, false, not, ◌||◌, Option, List, [], ◌∷◌, ◌==◌, string_eq, elem, all, ok,
  arith, >>=-eq-ok, Result-cases, inl, inr,
}
use godoo_py.Value.{Value, Fields, list, dict, get, entries, items}
use godoo_py.Properties.Types.{PropertyOption, PropertyDefinition}
use godoo_py.Properties.Codec.Parse.{
  parse_option, parse_options, raw_options, options_of, parse_name, parse_comodel, parse_entry,
  parse_entries, parse_definitions, is_relational, is_some,
}
use godoo_py.Properties.Codec.Shape.{
  is_distinct, is_option_of, option_ids, definition_ids, is_model, are_options, is_definition,
  are_definitions,
}

-- An option that is accepted is new.
parse_option-fresh :
    (tagged : Bool) (seen : List String) (v : Value) (o : PropertyOption)
    → parse_option tagged seen v ≡ ok o
    → (elem o.id seen ≡ false) × (is_option_of tagged o ≡ true)
unfolding parse_option
parse_option-fresh true seen v o h = ground arith
parse_option-fresh false seen v o h = ground arith

parse_options-distinct :
    (tagged : Bool) (seen : List String) (vs : List Value) (os : List PropertyOption)
    → parse_options tagged seen vs ≡ ok os
    → (is_distinct seen (option_ids os) ≡ true) × (all (is_option_of tagged) os ≡ true)
unfolding parse_options
parse_options-distinct tagged seen [] os h = ground arith
parse_options-distinct tagged seen (v ∷ vs) os h =
    let (o, eo, h') = >>=-eq-ok (parse_option tagged seen v) _ h in
    let (os', eos, h'') = >>=-eq-ok (parse_options tagged (o.id ∷ seen) vs) _ h' in
    ground (
      arith,
      parse_option-fresh tagged seen v o eo,
      parse_options-distinct tagged (o.id ∷ seen) vs os' eos,
    )

options_of-are_options :
    (kind : String) (raw : Value) (os : List PropertyOption)
    → options_of kind raw ≡ ok os
    → are_options kind os ≡ true
unfolding options_of
options_of-are_options kind raw os h = elim (Result-cases (raw_options raw)) [
  | inl (given, e) ↦ ground (arith, parse_options-distinct (kind == "tags") [] given os)
  | inr (fault, e) ↦ ground arith
]

parse_name-fresh :
    (seen : List String) (v : Value) (name : String)
    → parse_name seen v ≡ ok name
    → (elem name seen ≡ false) × ((name == "") ≡ false)
unfolding parse_name
parse_name-fresh seen v name h = ground arith

parse_comodel-is_model :
    (kind : String) (v : Value) (c : Option String)
    → parse_comodel kind v ≡ ok c
    → (is_model c ≡ true) × (not (is_relational kind) || is_some c ≡ true)
unfolding parse_comodel
parse_comodel-is_model kind v c h = ground arith

-- The parts of a definition are the results of the calls that parsed them.
parse_entry_parts :
    (seen : List String) (fs : Fields) (d : PropertyDefinition)
    → parse_entry seen (dict fs) ≡ ok d
    → (parse_name seen (get "name" (entries fs)) ≡ ok d.id)
      × (parse_comodel d.type (get "comodel" (entries fs)) ≡ ok d.comodel)
      × (options_of d.type (get d.type (entries fs)) ≡ ok d.options)
unfolding parse_entry
parse_entry_parts seen fs d h = ground arith

-- One entry gives a definition with a new ID.
parse_entry-fresh :
    (seen : List String) (v : Value) (d : PropertyDefinition)
    → parse_entry seen v ≡ ok d
    → (elem d.id seen ≡ false) × (is_definition d ≡ true)
unfolding is_definition
parse_entry-fresh seen (dict fs) d h =
    let (named, modelled, listed) = parse_entry_parts seen fs d h in
    let (fresh, nonempty) = parse_name-fresh seen (get "name" (entries fs)) d.id named in
    let (model, related) =
      parse_comodel-is_model d.type (get "comodel" (entries fs)) d.comodel modelled in
    let optioned = options_of-are_options d.type (get d.type (entries fs)) d.options listed in
    (fresh, rw (nonempty, model, related, optioned))
parse_entry-fresh seen v d h = unfold parse_entry in cc

parse_entries-distinct :
    (seen : List String) (vs : List Value) (ds : List PropertyDefinition)
    → parse_entries seen vs ≡ ok ds
    → (is_distinct seen (definition_ids ds) ≡ true) × (all is_definition ds ≡ true)
unfolding parse_entries
parse_entries-distinct seen [] ds h = ground arith
parse_entries-distinct seen (v ∷ vs) ds h =
    let (d, ed, h') = >>=-eq-ok (parse_entry seen v) _ h in
    let (ds', eds, h'') = >>=-eq-ok (parse_entries (d.id ∷ seen) vs) _ h' in
    ground (arith, parse_entry-fresh seen v d ed, parse_entries-distinct (d.id ∷ seen) vs ds' eds)

-- Whatever the server sends, accepted definitions have distinct nonempty IDs, a named comodel where
-- the kind is relational, and options, with distinct nonempty IDs, only on selections and tags.
pub parse_definitions-are_definitions :
    (raw : Value) (ds : List PropertyDefinition)
    → parse_definitions raw ≡ ok ds
    → are_definitions ds ≡ true
unfolding parse_definitions are_definitions
parse_definitions-are_definitions (list vs) ds h =
    ground (arith, parse_entries-distinct [] (items vs) ds)
parse_definitions-are_definitions raw ds h = ground arith
