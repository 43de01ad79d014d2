-- ===== src/Client/Refs/Batches.antt =====
-- The requests that `read` of references sends.
use godoo_py.Base.Eq.{Eq}
use godoo_py.Base.{
  ℤ, suc, ◌+◌, ◌≤◌, String, ◌≡◌, refl, Bool, true, false, ◌==◌, if◌then◌else◌, elem, Option, List,
  [], ◌∷◌, ◌++◌, int_eq, all, length, arith, inl, inr, Bool-cases, Option-cases,
}
use godoo_py.Base.Dict.{Dict, keys, lookup, contains, insert, is_dict}
use godoo_py.Value.{Value}
use godoo_py.Faults.{validation, Checked}
use godoo_py.Safety.{infer_safety_level}
use godoo_py.Client.State.{Outside, Client, lift}
use godoo_py.Client.Call.{call}
use godoo_py.Client.Crud.{numbers}
use godoo_py.Client.Guarded.{requests}
use godoo_py.Client.Counts.{call-requests, bound-requests}
use godoo_py.Client.Reads.{call-IsRead}
use godoo_py.Client.Traces.{Adds, IsRead, Adds-pure, Adds-lift, Adds-raise, Adds->>=}
use godoo_py.Client.Refs.Grouped.{groups-IsGrouped}
use godoo_py.Client.Refs.{
  Ref, add_ref, group_refs, Fetched, validated, store, read_typed, fetch_groups, stitch, is_typed,
  read_refs,
}

-- The key is taken out of the list once.
abbrev remove : {K : Type 0} ⦃e : Eq K⦄ → K → List K → List K
remove k [] = []
remove k (j ∷ js) = if k == j then js else j ∷ remove k js

-- Every key of the dict is in the list.
abbrev is_covered : {K V : Type 0} ⦃e : Eq K⦄ → Dict K V → List K → Bool
is_covered d js = all (λ k. elem k js) (keys d)

module _ {K : Type 0} ⦃e : Eq K⦄ where
  length-remove : (k : K) (js : List K) → elem k js ≡ true → length js ≡ suc (length (remove k js))
  length-remove k [] h = cc
  length-remove k (j ∷ js) h = ground (arith, length-remove k js)

  elem-remove : (k j : K) (js : List K) → (j == k) ≡ false → elem j (remove k js) ≡ elem j js
  elem-remove k j [] h = refl
  elem-remove k j (i ∷ js) h =
      ground (arith, elem-remove k j js, e.beq_iff k i, e.beq_iff j i, e.beq_iff j k)

  module _ {V : Type 0} where
    is_covered-remove :
        (k : K) (d : Dict K V) (js : List K)
        → contains k d ≡ false
        → is_covered d js ≡ true
        → is_covered d (remove k js) ≡ true
    is_covered-remove k [] js h c = refl
    is_covered-remove k ((j, v) ∷ d) js h c =
        ground (arith, is_covered-remove k d js, elem-remove k j js, e.beq_iff k j, e.beq_iff j k)

    -- A dict has no more keys than a list that covers them.
    length-is_covered :
        (d : Dict K V) (js : List K)
        → is_dict d ≡ true
        → is_covered d js ≡ true
        → length d ≤ length js
    length-is_covered [] js h c = omega arith
    length-is_covered ((k, v) ∷ d) js h c =
        ground
          (arith, length-is_covered d (remove k js), is_covered-remove k d js, length-remove k js)

    insert-is_covered :
        (k : K) (v : V) (d : Dict K V) (js : List K)
        → elem k js ≡ true
        → is_covered d js ≡ true
        → is_covered (insert k v d) js ≡ true
    insert-is_covered k v [] js h c = ground arith
    insert-is_covered k v ((j, w) ∷ d) js h c = ground (arith, insert-is_covered k v d js)

-- The class of every reference is in the list.
abbrev pub are_of : {Class : Type 0} ⦃same : Eq Class⦄ → List Class → List (Ref Class) → Bool
are_of classes refs = all (λ r. elem r.target classes) refs

module _ {Class : Type 0} ⦃same : Eq Class⦄ where
  add_ref-is_covered :
      (classes : List Class) (r : Ref Class) (groups : Dict Class (List ℤ))
      → is_covered groups classes ≡ true
      → elem r.target classes ≡ true
      → is_covered (add_ref r groups) classes ≡ true
  unfolding add_ref
  add_ref-is_covered classes r groups h k = elim (Option-cases (lookup r.target groups)) [
    | inl new ↦ rw (new, add_ref) (insert-is_covered r.target (r.id ∷ []) groups classes k h)
    | inr (ids, old) ↦ elim (Bool-cases (elem r.id ids)) [
      | inl there ↦ rw (old, add_ref) (rw there h)
      | inr fresh ↦
          rw (old, add_ref)
            (rw fresh (insert-is_covered r.target (ids ++ (r.id ∷ [])) groups classes k h))
    ]
  ]

  group_refs-is_covered :
      (classes : List Class) (groups : Dict Class (List ℤ)) (refs : List (Ref Class))
      → is_covered groups classes ≡ true
      → are_of classes refs ≡ true
      → is_covered (group_refs groups refs) classes ≡ true
  unfolding group_refs
  group_refs-is_covered classes groups [] h k = h
  group_refs-is_covered classes groups (r ∷ refs) h k =
      group_refs-is_covered classes (add_ref r groups) refs
        (add_ref-is_covered classes r groups h (ground (arith, k))) (ground (arith, k))

  -- There are no more groups than classes.
  length-group_refs :
      (classes : List Class) (refs : List (Ref Class))
      → are_of classes refs ≡ true
      → length (group_refs [] refs) ≤ length classes
  length-group_refs classes refs h =
      length-is_covered (group_refs [] refs) classes ((groups-IsGrouped [] refs refl tt).0)
        (group_refs-is_covered classes [] refs refl h)

module _ {Class Instance : Type 0} ⦃same : Eq Class⦄ (odoo_model : Class → Option String)
    (validate : Class → Value → Checked Instance) (id_of : Instance → ℤ) (outside : Outside) where
  read_typed-requests :
      (c : Class) (model : String) (ids : List ℤ) (s : Client)
      → requests (read_typed validate outside c model ids s).1.log ≤ suc (requests s.log)
  unfolding read_typed
  read_typed-requests c model ids s =
      let sending = call-requests outside model "read" (numbers ids ∷ []) [] s in
      let bound =
        bound-requests (call outside model "read" (numbers ids ∷ []) [] s)
          (λ raw. lift (validated validate c raw)) (suc (requests s.log)) 0 sending
          (λ raw s'. omega arith) in
      omega (arith, bound)

  fetch_groups-requests :
      (groups : Dict Class (List ℤ)) (fetched : Fetched Class Instance) (s : Client)
      → requests (fetch_groups odoo_model validate id_of outside groups fetched s).1.log
        ≤ requests s.log + length groups
  unfolding fetch_groups
  fetch_groups-requests [] fetched s = omega arith
  fetch_groups-requests ((c, ids) ∷ groups) fetched s = elim (Option-cases (odoo_model c)) [
    | inl untyped ↦ rw (untyped, fetch_groups) (omega arith)
    | inr (model, typed) ↦
        let bound =
          bound-requests (read_typed validate outside c model ids s)
            (λ xs. fetch_groups odoo_model validate id_of outside groups (store id_of c xs fetched))
            (suc (requests s.log)) (length groups) (read_typed-requests c model ids s)
            (λ xs s'. fetch_groups-requests groups (store id_of c xs fetched) s') in
        rw (typed, fetch_groups) (omega (arith, bound))
  ]

  fetch_groups-IsRead :
      (groups : Dict Class (List ℤ)) (fetched : Fetched Class Instance)
      → Adds IsRead (fetch_groups odoo_model validate id_of outside groups fetched)
  unfolding fetch_groups read_typed infer_safety_level
  fetch_groups-IsRead [] fetched = Adds-pure IsRead fetched
  fetch_groups-IsRead ((c, ids) ∷ groups) fetched = elim (Option-cases (odoo_model c)) [
    | inl untyped ↦
        rw (untyped, fetch_groups) (Adds-raise (Fetched Class Instance) IsRead validation)
    | inr (model, typed) ↦
        rw (typed, fetch_groups)
          (Adds->>= IsRead _ _
            (Adds->>= IsRead _ _ (call-IsRead outside model "read" (numbers ids ∷ []) refl [])
              (λ raw. Adds-lift IsRead (validated validate c raw)))
            (λ xs. fetch_groups-IsRead groups (store id_of c xs fetched)))
  ]

  -- Reading references asks nothing, sends requests of the READ level alone, and of these no more
  -- than the length of any list that has the classes of the references.
  pub read_refs-batched :
      (classes : List Class) (refs : List (Ref Class)) (s : Client)
      → are_of classes refs ≡ true
      → Adds IsRead (read_refs odoo_model validate id_of outside refs)
        × (requests (read_refs odoo_model validate id_of outside refs s).1.log
            ≤ requests s.log + length classes)
  unfolding read_refs
  read_refs-batched classes [] s h = (Adds-pure IsRead [], omega arith)
  read_refs-batched classes (r ∷ refs) s h =
      elim (Bool-cases (all (is_typed odoo_model) (r ∷ refs))) [
        | inr untyped ↦
            rw (untyped, read_refs) (Adds-raise (List Instance) IsRead validation, omega arith)
        | inl typed ↦
            let groups = group_refs [] (r ∷ refs) in
            let few = length-group_refs classes (r ∷ refs) h in
            let bound =
              bound-requests (fetch_groups odoo_model validate id_of outside groups [] s)
                (λ fetched. lift (stitch fetched (r ∷ refs))) (requests s.log + length groups) 0
                (fetch_groups-requests groups [] s) (λ fetched s'. omega arith) in
            rw (typed, read_refs)
              (
                Adds->>= IsRead _ _ (fetch_groups-IsRead groups [])
                    (λ fetched. Adds-lift IsRead (stitch fetched (r ∷ refs))),
                omega (arith, bound, few),
              )
      ]
