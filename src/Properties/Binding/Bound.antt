-- ===== src/Properties/Binding/Bound.antt =====
-- What a binding that was accepted looks like.
use mathlib.Core.Path.{subst}
use godoo_py.Base.{
  String, ◌≡◌, refl, inl, inr, Bool, true, false, not, ◌&&◌, Option, none, some, List, [], ◌∷◌,
  string_eq, elem, all, ok, check, require, arith, All, >>=-eq-ok, Option-cases,
}
use godoo_py.Base.Dict.{Dict, keys, lookup}
use godoo_py.Value.{Value, as_dict}
use godoo_py.Faults.{property_value}
use godoo_py.Properties.Types.{
  PropertyOption, PropertyDefinition, get_option, get_definition, is_found,
}
use godoo_py.Properties.Codec.Parse.{has_options}
use godoo_py.Properties.Codec.Records.{is_separator}
use godoo_py.Properties.Codec.Shape.{is_distinct, definition_ids}
use godoo_py.Properties.Binding.Declare.{
  Lexicon, Alias, is_private, keywords, view_names, alias_name, select_option, select_definition,
  without_options, is_spec, bind_options, option_map, bind_alias, bind_aliases,
}
use godoo_py.Properties.Binding.Aliases.{option_targets}
use godoo_py.Properties.Binding.Select.{
  get_option_found, get_definition_self, select_option-Member, select_definition-Member,
}

-- The option IDs that an alias maps to, of options of its definition, each once
abbrev pub AreTargets : List PropertyOption → List String → List String → Type 0
AreTargets options seen oids =
    (all (λ oid. is_found (get_option options oid)) oids ≡ true) × (is_distinct seen oids ≡ true)

abbrev pub targets_of : Dict String String → List String
targets_of options = option_targets (some options)

bind_options-AreTargets :
    (lexicon : Lexicon) (options : List PropertyOption) (seen : List String)
    (raw : Dict String Value) (done : Dict String String)
    → bind_options lexicon options seen raw ≡ ok done
    → AreTargets options seen (targets_of done)
unfolding bind_options
bind_options-AreTargets lexicon options seen [] done h =
    let same : [] ≡ done = ground arith in
    subst (λ (d : Dict String String). AreTargets options seen (targets_of d)) same (refl, refl)
bind_options-AreTargets lexicon options seen ((alias, raw) ∷ rest) done h =
    let (_, _, a) =
      >>=-eq-ok (alias_name lexicon alias (is_found (get_option options alias))) _ h in
    let (selector, _, b) = >>=-eq-ok (require (as_dict raw) property_value) _ a in
    let (option, chosen, c) = >>=-eq-ok (select_option options selector) _ b in
    let (_, fresh, d) = >>=-eq-ok (check (not (elem option.id seen)) property_value) _ c in
    let (others, bound, e) = >>=-eq-ok (bind_options lexicon options (option.id ∷ seen) rest) _ d in
    let (found, distinct) =
      bind_options-AreTargets lexicon options (option.id ∷ seen) rest others bound in
    let here =
      get_option_found options option (select_option-Member options selector option chosen) in
    let same : (alias, option.id) ∷ others ≡ done = ground arith in
    subst (λ (d : Dict String String). AreTargets options seen (targets_of d)) same
      (ground arith, ground arith)

check-not_last :
    (a b c d e : Bool) → check (a && b && c && d && not e) property_value ≡ ok tt → e ≡ false
check-not_last a b c d e h = ground arith

alias_name-technical :
    (lexicon : Lexicon) (alias : String) (is_technical : Bool)
    → alias_name lexicon alias is_technical ≡ ok tt
    → is_technical ≡ false
unfolding alias_name
alias_name-technical lexicon alias is_technical h =
    check-not_last (lexicon.is_identifier alias) (not (is_private alias))
      (not (elem alias keywords)) (not (elem alias view_names)) is_technical h

-- An alias is no technical ID; it stands for a known property that is no separator, and its options
-- for options of that property, each once.
abbrev pub IsBound : List PropertyDefinition → String × Alias → Type 0
IsBound definitions (alias, entry) =
    (is_found (get_definition definitions alias) ≡ false)
    × (get_definition definitions entry.definition.id ≡ ok entry.definition)
    × (is_separator entry.definition ≡ false)
    × AreTargets entry.definition.options [] (option_targets entry.options)

abbrev pub bound_ids : Dict String Alias → List String
bound_ids [] = []
bound_ids ((alias, entry) ∷ aliases) = entry.definition.id ∷ bound_ids aliases

check-not_left : (a b : Bool) → check (not a && not b) property_value ≡ ok tt → a ≡ false
check-not_left a b h = ground arith

check-not_right : (a b : Bool) → check (not a && not b) property_value ≡ ok tt → b ≡ false
check-not_right a b h = ground arith

module _ (lexicon : Lexicon) (definitions : List PropertyDefinition) where
  option_map-AreTargets :
      (d : PropertyDefinition) (spec : Dict String Value) (mapped : Option (Dict String String))
      → option_map lexicon d spec ≡ ok mapped
      → AreTargets d.options [] (option_targets mapped)
  unfolding option_map
  option_map-AreTargets d spec mapped h = elim (Option-cases (lookup "options" spec)) [
    | inl gone ↦
        let same : none ≡ mapped = ground (arith, gone, h) in
        subst (λ (m : Option (Dict String String)). AreTargets d.options [] (option_targets m)) same
          (refl, refl)
    | inr (raw, given) ↦
        let (_, _, a) =
          >>=-eq-ok (check (has_options d.type) property_value) _ (rw (given, option_map) at h) in
        let (entries, _, b) = >>=-eq-ok (require (as_dict raw) property_value) _ a in
        let (done, bound, c) = >>=-eq-ok (bind_options lexicon d.options [] entries) _ b in
        let same : some done ≡ mapped = ground arith in
        subst (λ (m : Option (Dict String String)). AreTargets d.options [] (option_targets m)) same
          (bind_options-AreTargets lexicon d.options [] entries done bound)
  ]

  bind_alias-IsBound :
      (taken : List String) (alias : String) (raw : Value) (entry : Alias)
      → is_distinct [] (definition_ids definitions) ≡ true
      → bind_alias lexicon definitions taken alias raw ≡ ok entry
      → IsBound definitions (alias, entry) × (elem entry.definition.id taken ≡ false)
  unfolding bind_alias
  bind_alias-IsBound taken alias raw entry distinct h =
      let technical = is_found (get_definition definitions alias) in
      let (_, named, a) = >>=-eq-ok (alias_name lexicon alias technical) _ h in
      let (spec, _, b) = >>=-eq-ok (require (as_dict raw) property_value) _ a in
      let (_, _, c) = >>=-eq-ok (check (is_spec (keys spec)) property_value) _ b in
      let (d, chosen, e) = >>=-eq-ok (select_definition definitions (without_options spec)) _ c in
      let (_, fresh, f) =
        >>=-eq-ok (check (not (elem d.id taken) && not (is_separator d)) property_value) _ e in
      let (mapped, made, g) = >>=-eq-ok (option_map lexicon d spec) _ f in
      let known_self =
        get_definition_self [] definitions d distinct
          (select_definition-Member definitions (without_options spec) d chosen) in
      let targets = option_map-AreTargets d spec mapped made in
      let same : record { definition = d; options = mapped } ≡ entry = ground arith in
      subst (λ (x : Alias). IsBound definitions (alias, x) × (elem x.definition.id taken ≡ false))
        same
        (
          (
            alias_name-technical lexicon alias technical named,
            known_self.0,
            check-not_right _ _ fresh,
            targets,
          ),
          check-not_left _ _ fresh,
        )

  -- Of every alias, in the order of the declarations
  pub bind_aliases-IsBound :
      (taken : List String) (given : Dict String Value) (aliases : Dict String Alias)
      → is_distinct [] (definition_ids definitions) ≡ true
      → bind_aliases lexicon definitions taken given ≡ ok aliases
      → All (IsBound definitions) aliases
        × (is_distinct taken (bound_ids aliases) ≡ true)
        × (keys aliases ≡ keys given)
  unfolding bind_aliases
  bind_aliases-IsBound taken [] aliases distinct h =
      let same : [] ≡ aliases = ground arith in
      subst
        (λ (a : Dict String Alias).
          All (IsBound definitions) a × (is_distinct taken (bound_ids a) ≡ true) × (keys a ≡ []))
        same (tt, refl, refl)
  bind_aliases-IsBound taken ((alias, raw) ∷ given) aliases distinct h =
      let (entry, one, a) = >>=-eq-ok (bind_alias lexicon definitions taken alias raw) _ h in
      let (others, more, b) =
        >>=-eq-ok (bind_aliases lexicon definitions (entry.definition.id ∷ taken) given) _ a in
      let (bound, fresh) = bind_alias-IsBound taken alias raw entry distinct one in
      let (rest, unique, named) =
        bind_aliases-IsBound (entry.definition.id ∷ taken) given others distinct more in
      let same : (alias, entry) ∷ others ≡ aliases = ground arith in
      subst
        (λ (a : Dict String Alias).
          All (IsBound definitions) a
          × (is_distinct taken (bound_ids a) ≡ true)
          × (keys a ≡ alias ∷ keys given))
        same ((bound, rest), ground (arith, fresh, unique), ground (arith, named))
