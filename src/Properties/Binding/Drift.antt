-- ===== src/Properties/Binding/Drift.antt =====
-- What `refresh` of a binding lets through.
use mathlib.Core.Path.{subst}
use godoo_py.Base.{
  String, ◌≡◌, refl, sym, ap, ◌∙◌, Bool, true, ◌&&◌, Option, none, some, List, [], ◌∷◌, ◌==◌,
  string_eq, all, ok, check, arith, All, >>=-eq-ok, eq→path,
}
use godoo_py.Base.Dict.{Dict}
use godoo_py.Faults.{property_drift}
use godoo_py.Client.{Outside, Client, lift, pure, ◌>>◌ as then_run}
use godoo_py.Client.Traces.{Adds, IsRead, Adds-lift, Adds-pure, Adds->>=, Adds->>, >>=-returns}
use godoo_py.Properties.Types.{
  PropertyOption, PropertyDefinition, get_option, get_definition, is_found,
}
use godoo_py.Properties.Scope.Calls.{load_definitions}
use godoo_py.Properties.Scope.Preflight.{load_definitions-IsRead}
use godoo_py.Properties.Binding.Declare.{Alias, PropertyBinding}
use godoo_py.Properties.Binding.Aliases.{
  check_options, check_alias, check_aliases, same_comodel, option_targets,
}
use godoo_py.Properties.Binding.Calls.{refresh}

-- The property of an alias is still there with its kind and comodel, and so are its mapped options.
abbrev pub IsKept : List PropertyDefinition → String × Alias → Type 0
IsKept definitions (alias, entry) =
    (after : PropertyDefinition) × (get_definition definitions entry.definition.id ≡ ok after)
    × (entry.definition.type ≡ after.type)
    × (entry.definition.comodel ≡ after.comodel)
    × (all (λ oid. is_found (get_option after.options oid)) (option_targets entry.options) ≡ true)

check_options-found :
    (options : List PropertyOption) (oids : List String)
    → check_options options oids ≡ ok tt
    → all (λ oid. is_found (get_option options oid)) oids ≡ true
unfolding check_options
check_options-found options [] h = refl
check_options-found options (oid ∷ oids) h = ground (arith, check_options-found options oids)

same_comodel-path : (a b : Option String) → same_comodel a b ≡ true → a ≡ b
same_comodel-path none none h = refl
same_comodel-path (some a) (some b) h = ground (arith, eq→path a b)
same_comodel-path none (some b) h = cc
same_comodel-path (some a) none h = cc

check-and : (a b : Bool) → check (a && b) property_drift ≡ ok tt → (a ≡ true) × (b ≡ true)
check-and a b h = ground arith

check_alias-IsKept :
    (candidate : List PropertyDefinition) (alias : String) (entry : Alias)
    → check_alias candidate entry ≡ ok tt
    → IsKept candidate (alias, entry)
unfolding check_alias
check_alias-IsKept candidate alias entry h =
    let before = entry.definition in
    let (_, _, a) =
      >>=-eq-ok (check (is_found (get_definition candidate before.id)) property_drift) _ h in
    let (after, found, b) = >>=-eq-ok (get_definition candidate before.id) _ a in
    let (_, same, c) =
      >>=-eq-ok
        (check (before.type == after.type && same_comodel before.comodel after.comodel)
          property_drift)
        _ b in
    let (kind, comodel) = check-and _ _ same in
    (
      after,
      found,
      eq→path before.type after.type kind,
      same_comodel-path before.comodel after.comodel comodel,
      check_options-found after.options (option_targets entry.options) c,
    )

check_aliases-IsKept :
    (candidate : List PropertyDefinition) (aliases : Dict String Alias)
    → check_aliases candidate aliases ≡ ok tt
    → All (IsKept candidate) aliases
unfolding check_aliases
check_aliases-IsKept candidate [] h = tt
check_aliases-IsKept candidate ((alias, entry) ∷ aliases) h =
    let (_, one, rest) = >>=-eq-ok (check_alias candidate entry) _ h in
    (check_alias-IsKept candidate alias entry one, check_aliases-IsKept candidate aliases rest)

pub refresh-IsRead :
    (outside : Outside) (binding : PropertyBinding) → Adds IsRead (refresh outside binding)
unfolding refresh
refresh-IsRead outside binding =
    search (Adds->>=, Adds->>, Adds-lift, Adds-pure, load_definitions-IsRead) depth 9

-- A refresh that returns keeps the aliases and the scope, and in the new definitions every alias has
-- its property, of the same kind and comodel, with all options that it maps to.
pub refresh-IsKept :
    (outside : Outside) (binding b : PropertyBinding) (s : Client)
    → (refresh outside binding s).0 ≡ ok b
    → (b.aliases ≡ binding.aliases)
      × (b.scope ≡ binding.scope)
      × All (IsKept b.definitions) b.aliases
unfolding refresh
refresh-IsKept outside binding b s h =
    let (candidate, _, a) = >>=-returns (load_definitions outside binding.scope) _ s b h in
    let loaded = (load_definitions outside binding.scope s).1 in
    kept candidate loaded (ap (λ r. r.0) (sym a) ∙ h)
  where
    kept :
        (candidate : List PropertyDefinition) (s' : Client)
        → (then_run
            (lift (check_aliases candidate binding.aliases))
            (pure (record binding { definitions = candidate }))
            s').0
          ≡ ok b
        → (b.aliases ≡ binding.aliases)
          × (b.scope ≡ binding.scope)
          × All (IsKept b.definitions) b.aliases
    kept candidate s' e =
        let (_, checked, c) =
          >>=-returns (lift (check_aliases candidate binding.aliases))
            (λ _. pure (record binding { definitions = candidate })) s' b e in
        let same : record binding { definitions = candidate } ≡ b = ground (arith, c, e) in
        subst
          (λ (x : PropertyBinding).
            (x.aliases ≡ binding.aliases)
            × (x.scope ≡ binding.scope)
            × All (IsKept x.definitions) x.aliases)
          same (refl, refl, check_aliases-IsKept candidate binding.aliases checked)
