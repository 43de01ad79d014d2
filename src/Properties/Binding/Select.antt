-- ===== src/Properties/Binding/Select.antt =====
-- What is selected by an ID or a label is an entry of the collection.
use godoo_py.Base.{
  String, ◌≡◌, refl, ◌⊎◌, inl, inr, Bool, true, false, List, [], ◌∷◌, ◌==◌, string_eq, elem, select,
  ok, err, arith, Bool-cases, eq_refl, ne_sym,
}
use godoo_py.Base.Dict.{Dict}
use godoo_py.Value.{Value}
use godoo_py.Faults.{Checked}
use godoo_py.Properties.Types.{
  PropertyOption, PropertyDefinition, get_option, get_definition, by_label, is_found,
}
use godoo_py.Properties.Codec.Shape.{is_distinct, definition_ids}
use godoo_py.Properties.Binding.Declare.{
  selector_of, known, select_from, select_option, select_definition, option_label, definition_label,
}

abbrev pub Member : {A : Type 0} → A → List A → Type 0
Member a [] = ⊥
Member a (x ∷ xs) = (a ≡ x) ⊎ Member a xs

select-Member :
    {A : Type 0} (p : A → Bool) (xs rest : List A) (a : A) → select p xs ≡ a ∷ rest → Member a xs
select-Member p [] rest a h = cc
select-Member p (x ∷ xs) rest a h = elim (Bool-cases (p x)) [
  | inl e ↦ inl (ground arith)
  | inr e ↦ inr (select-Member p xs rest a (ground arith))
]

the_match :
    {A : Type 0} (label_of : A → String) (xs matches : List A) (label : String) (a : A)
    → select (λ x. label_of x == label) xs ≡ matches
    → by_label label_of xs label ≡ ok a
    → matches ≡ a ∷ []
unfolding by_label
the_match label_of xs [] label a e h = ground (arith, e, h)
the_match label_of xs (m ∷ []) label a e h = ground (arith, e, h)
the_match label_of xs (m ∷ n ∷ rest) label a e h = ground (arith, e, h)

by_label-Member :
    {A : Type 0} (label_of : A → String) (xs : List A) (label : String) (a : A)
    → by_label label_of xs label ≡ ok a
    → Member a xs
by_label-Member {A} label_of xs label a h =
    let p = λ (x : A). label_of x == label in
    select-Member p xs [] a (the_match label_of xs (select p xs) label a refl h)

pub get_option_found :
    (options : List PropertyOption) (o : PropertyOption)
    → Member o options
    → is_found (get_option options o.id) ≡ true
unfolding get_option
get_option_found [] o m = absurd m
get_option_found (x ∷ xs) o (inl e) = rw (e, eq_refl x.id)
get_option_found (x ∷ xs) o (inr m) = ground (arith, get_option_found xs o m)

get_option-Member :
    (options : List PropertyOption) (key : String) (o : PropertyOption)
    → get_option options key ≡ ok o
    → Member o options
unfolding get_option
get_option-Member [] key o h = cc
get_option-Member (x ∷ xs) key o h = elim (Bool-cases (x.id == key)) [
  | inl e ↦ inl (ground arith)
  | inr e ↦ inr (get_option-Member xs key o (ground arith))
]

get_definition-Member :
    (definitions : List PropertyDefinition) (key : String) (d : PropertyDefinition)
    → get_definition definitions key ≡ ok d
    → Member d definitions
unfolding get_definition
get_definition-Member [] key d h = cc
get_definition-Member (x ∷ xs) key d h = elim (Bool-cases (x.id == key)) [
  | inl e ↦ inl (ground arith)
  | inr e ↦ inr (get_definition-Member xs key d (ground arith))
]

-- Where IDs are distinct, a definition of the list is found under its own ID.
pub get_definition_self :
    (seen : List String) (definitions : List PropertyDefinition) (d : PropertyDefinition)
    → is_distinct seen (definition_ids definitions) ≡ true
    → Member d definitions
    → (get_definition definitions d.id ≡ ok d) × (elem d.id seen ≡ false)
unfolding get_definition
get_definition_self seen [] d h m = absurd m
get_definition_self seen (x ∷ xs) d h (inl e) = (rw (e, eq_refl x.id), rw e (ground arith))
get_definition_self seen (x ∷ xs) d h (inr m) =
    let (found, fresh) = get_definition_self (x.id ∷ seen) xs d (ground arith) m in
    (ground (arith, ne_sym d.id x.id), ground arith)

known_lem : {A : Type 0} (r : Checked A) (a : A) → known r ≡ ok a → r ≡ ok a
known_lem (ok x) a h = h
known_lem (err e) a h = cc

-- What is selected is an entry of the collection, by its ID or by its label.
select_from-Member :
    {A : Type 0} (xs : List A) (by_id label_lookup : String → Checked A)
    (selector : Dict String Value) (a : A)
    → ((key : String) → by_id key ≡ ok a → Member a xs)
    → ((label : String) → label_lookup label ≡ ok a → Member a xs)
    → select_from by_id label_lookup selector ≡ ok a
    → Member a xs
unfolding select_from
select_from-Member xs by_id label_lookup selector a p q h = selected (selector_of selector) refl
  where
    selected : (r : Checked (String × String)) → selector_of selector ≡ r → Member a xs
    selected (err e) s = ground (arith, s, h)
    selected (ok (key, text)) s = elim (Bool-cases (key == "label")) [
      | inl e ↦ q text (ground (arith, s, e, h))
      | inr e ↦ p text (known_lem (by_id text) a (ground (arith, s, e, h)))
    ]

pub select_option-Member :
    (options : List PropertyOption) (selector : Dict String Value) (o : PropertyOption)
    → select_option options selector ≡ ok o
    → Member o options
unfolding select_option
select_option-Member options selector o h =
    select_from-Member options (get_option options) (by_label option_label options) selector o
      (λ key. get_option-Member options key o)
      (λ label. by_label-Member option_label options label o) h

pub select_definition-Member :
    (definitions : List PropertyDefinition) (selector : Dict String Value) (d : PropertyDefinition)
    → select_definition definitions selector ≡ ok d
    → Member d definitions
unfolding select_definition
select_definition-Member definitions selector d h =
    select_from-Member definitions (get_definition definitions)
      (by_label definition_label definitions) selector d
      (λ key. get_definition-Member definitions key d)
      (λ label. by_label-Member definition_label definitions label d) h
