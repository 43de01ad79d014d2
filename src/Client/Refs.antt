-- ===== src/Client/Refs.antt =====
-- `read` of client.py on references, and on one typed model without a list of fields. The classes and
-- their instances are parameters: `odoo_model` is the attribute `__odoo_model__`, if a class has it,
-- and `validate` is `_validate_typed`, which calls pydantic.
pub mod Grouped
pub mod Resolved
pub mod Batches
use godoo_py.Base.Eq.{Eq}
use godoo_py.Base.{
  ℤ, int_eq, String, Bool, true, false, ◌&&◌, ◌==◌, pair_eq, ◌≡◌, ◌↔◌, arith, Option, none, some,
  List, [], ◌∷◌, ◌++◌, map, elem, all, if◌then◌else◌, ok, err, require,
}
use godoo_py.Base.Dict.{Dict, lookup, insert, keys}
use godoo_py.Value.{iterate, Value, str, list, tuple, dict, items, entries}
use godoo_py.Faults.{validation, missing, type_error, other, Checked}
use godoo_py.Client.State.{Outside, Rpc, ◌>>=◌, pure, raise, lift}
use godoo_py.Client.Call.{call}
use godoo_py.Client.Crud.{numbers}

-- `Ref`. A `_target_cls` of `None` is one more class without `__odoo_model__`.
pub record Ref (Class : Type 0) : Type 0 where
  pub id : ℤ
  pub name : Option String
  pub target : Class

abbrev first : {A : Type 0} → List A → Option A
first [] = none
first (x ∷ xs) = some x

-- `fetched`
abbrev pub Fetched : Type 0 → Type 0 → Type 0
Fetched Class Instance = Dict (Class × ℤ) Instance

-- A list by items that may raise, the first item first
abbrev pub prepend : {A : Type 0} → Checked A → Checked (List A) → Checked (List A)
prepend (err e) rest = err e
prepend (ok x) (err e) = err e
prepend (ok x) (ok xs) = ok (x ∷ xs)

module _ {Class : Type 0} ⦃same : Eq Class⦄ where
  -- `if r.id not in groups[cls]: groups[cls].append(r.id)`, where a missing group starts out empty
  unfoldable pub add_ref : Ref Class → Dict Class (List ℤ) → Dict Class (List ℤ)
  add_ref r groups = elim (lookup r.target groups) [
    | none ↦ insert r.target (r.id ∷ []) groups
    | some ids ↦ if elem r.id ids then groups else insert r.target (ids ++ (r.id ∷ [])) groups
  ]

  -- `groups`
  unfoldable pub group_refs : Dict Class (List ℤ) → List (Ref Class) → Dict Class (List ℤ)
  group_refs groups [] = groups
  group_refs groups (r ∷ refs) = group_refs (add_ref r groups) refs

  module _ {Instance : Type 0} where
    -- `[_validate_typed(target, r) for r in raw]`
    unfoldable pub validate_each :
        (Class → Value → Checked Instance) → Class → List Value → Checked (List Instance)
    validate_each validate cls [] = ok []
    validate_each validate cls (v ∷ vs) = prepend (validate cls v) (validate_each validate cls vs)

    -- The instances of an answer
    abbrev pub validated :
        (Class → Value → Checked Instance) → Class → Value → Checked (List Instance)
    validated validate cls raw = elim (iterate raw) [
      | err e ↦ err e
      | ok rows ↦ validate_each validate cls rows
    ]

    -- `fetched[(target_cls, record.id)] = record`
    unfoldable pub store :
        (Instance → ℤ) → Class → List Instance → Fetched Class Instance → Fetched Class Instance
    store id_of cls [] fetched = fetched
    store id_of cls (x ∷ xs) fetched = store id_of cls xs (insert (cls, id_of x) x fetched)

    -- The instances in the order of the references
    unfoldable pub stitch : Fetched Class Instance → List (Ref Class) → Checked (List Instance)
    stitch fetched [] = ok []
    stitch fetched (r ∷ refs) =
        prepend (require (lookup (r.target, r.id) fetched) missing) (stitch fetched refs)

    -- `read` on a typed model, without a list of fields and where pydantic is installed
    unfoldable pub read_typed :
        (Class → Value → Checked Instance) → Outside → Class → String → List ℤ → Rpc (List Instance)
    read_typed validate outside cls model ids = do
      raw ← call outside model "read" (numbers ids ∷ []) []
      lift (validated validate cls raw)

  abbrev pub is_typed : (Class → Option String) → Ref Class → Bool
  is_typed odoo_model r = elim (odoo_model r.target) [ none ↦ false | some model ↦ true ]

  module _ {Instance : Type 0} (odoo_model : Class → Option String)
      (validate : Class → Value → Checked Instance) (id_of : Instance → ℤ) (outside : Outside) where
    -- One `read` for each target. A class without `__odoo_model__` is refused before.
    unfoldable pub fetch_groups :
        Dict Class (List ℤ) → Fetched Class Instance → Rpc (Fetched Class Instance)
    fetch_groups [] fetched = pure fetched
    fetch_groups ((cls, ids) ∷ groups) fetched = elim (odoo_model cls) [
      | none ↦ raise validation
      | some model ↦ do
        results ← read_typed validate outside cls model ids
        fetch_groups groups (store id_of cls results fetched)
    ]

    -- `read` on a list of references
    unfoldable pub read_refs : List (Ref Class) → Rpc (List Instance)
    read_refs [] = pure []
    read_refs refs =
        if all (is_typed odoo_model) refs
        then (do fetched ← fetch_groups (group_refs [] refs) []; lift (stitch fetched refs))
        else raise validation

    -- `read` on one reference: `ordered[0]`
    unfoldable pub read_ref : Ref Class → Rpc Instance
    read_ref r = do ordered ← read_refs (r ∷ []); lift (require (first ordered) other)
