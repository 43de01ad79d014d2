-- ===== src/Client/Refs/Resolved.antt =====
-- The instances that `read` returns for references.
use mathlib.Core.Path.{subst}
use godoo_py.Base.Eq.{Eq}
use godoo_py.Base.{
  ℤ, int_eq, pair_eq, eq→path, String, ◌≡◌, refl, ◌==◌, Option, none, some, List, [], ◌∷◌, all, All,
  arith, inl, inr, Bool-cases, Option-cases, Result-cases, ok, err, ap, sym, ◌∙◌, require,
}
use godoo_py.Base.Dict.{Dict, lookup, insert}
use godoo_py.Value.{iterate, Value}
use godoo_py.Faults.{Fault, missing, Checked}
use godoo_py.Client.State.{Outside, Client, Rpc, ◌>>=◌, lift}
use godoo_py.Client.Call.{call}
use godoo_py.Client.Crud.{numbers}
use godoo_py.Client.Traces.{>>=-returns}
use godoo_py.Client.Refs.{
  Ref, group_refs, Fetched, validate_each, validated, prepend, store, read_typed, fetch_groups,
  stitch, is_typed, read_refs,
}

module _ {A : Type 0} where
  -- The item and the rest of a list that was made
  prepend-ok :
      (r : Checked A) (rest : Checked (List A)) (xs : List A)
      → prepend r rest ≡ ok xs
      → (x : A) × (others : List A) × (xs ≡ x ∷ others) × (r ≡ ok x) × (rest ≡ ok others)
  prepend-ok (err e) rest xs h = absurd cc
  prepend-ok (ok x) (err e) xs h = absurd cc
  prepend-ok (ok x) (ok others) xs h = (x, others, cc, refl, refl)

  require-ok : (o : Option A) (x : A) (e : Fault) → require o e ≡ ok x → o ≡ some x
  require-ok none x e h = absurd cc
  require-ok (some y) x e h = cc

module _ {Class Instance : Type 0} ⦃same : Eq Class⦄ (odoo_model : Class → Option String)
    (validate : Class → Value → Checked Instance) (id_of : Instance → ℤ) (outside : Outside) where
  -- The instance was validated as one of the class.
  abbrev pub IsOf : Class → Instance → Type 0
  IsOf c x = (v : Value) × (validate c v ≡ ok x)

  -- It has the ID and the class of the reference.
  abbrev pub IsResolved : Ref Class → Instance → Type 0
  IsResolved r x = (id_of x ≡ r.id) × IsOf r.target x

  -- One instance for each reference, in their order
  abbrev pub AreResolved : List (Ref Class) → List Instance → Type 0
  AreResolved [] [] = Unit
  AreResolved (r ∷ refs) (x ∷ xs) = IsResolved r x × AreResolved refs xs
  AreResolved _ _ = ⊥

  abbrev IsEntry : (Class × ℤ) × Instance → Type 0
  IsEntry f = (id_of f.1 ≡ f.0.1) × IsOf f.0.0 f.1

  validate_each-IsOf :
      (c : Class) (vs : List Value) (xs : List Instance)
      → validate_each validate c vs ≡ ok xs
      → All (IsOf c) xs
  unfolding validate_each
  validate_each-IsOf c [] [] h = tt
  validate_each-IsOf c [] (x ∷ xs) h = cc
  validate_each-IsOf c (v ∷ vs) xs h =
      let (x, others, e, valid, rest) =
        prepend-ok (validate c v) (validate_each validate c vs) xs h in
      rw e ((v, valid), validate_each-IsOf c vs others rest)

  insert-IsEntry :
      (c : Class) (x : Instance) (fetched : Fetched Class Instance)
      → IsOf c x
      → All IsEntry fetched
      → All IsEntry (insert (c, id_of x) x fetched)
  insert-IsEntry c x [] h k = ((refl, h), tt)
  insert-IsEntry c x ((key, old) ∷ fetched) h k = elim (Bool-cases ((c, id_of x) == key)) [
    | inl e ↦ rw e (
      (
        ap (λ key. key.1) (eq→path (c, id_of x) key e),
        subst (λ key. IsOf key.0 x) (eq→path (c, id_of x) key e) h,
      ),
      k.1,
    )
    | inr e ↦ rw e (k.0, insert-IsEntry c x fetched h k.1)
  ]

  store-IsEntry :
      (c : Class) (xs : List Instance) (fetched : Fetched Class Instance)
      → All (IsOf c) xs
      → All IsEntry fetched
      → All IsEntry (store id_of c xs fetched)
  unfolding store
  store-IsEntry c [] fetched h k = k
  store-IsEntry c (x ∷ xs) fetched h k =
      store-IsEntry c xs (insert (c, id_of x) x fetched) h.1 (insert-IsEntry c x fetched h.0 k)

  lookup-IsEntry :
      (key : Class × ℤ) (x : Instance) (fetched : Fetched Class Instance)
      → All IsEntry fetched
      → lookup key fetched ≡ some x
      → IsEntry (key, x)
  lookup-IsEntry key x [] k h = cc
  lookup-IsEntry key x ((j, y) ∷ fetched) k h = elim (Bool-cases (key == j)) [
    | inl e ↦
        let kept : y ≡ x = ground arith in
        subst (λ z. IsEntry (key, z)) kept (subst (λ i. IsEntry (i, y)) (sym (eq→path key j e)) k.0)
    | inr e ↦ lookup-IsEntry key x fetched k.1 (ground arith)
  ]

  stitch-AreResolved :
      (fetched : Fetched Class Instance) (refs : List (Ref Class)) (xs : List Instance)
      → All IsEntry fetched
      → stitch fetched refs ≡ ok xs
      → AreResolved refs xs
  unfolding stitch
  stitch-AreResolved fetched [] [] k h = tt
  stitch-AreResolved fetched [] (x ∷ xs) k h = cc
  stitch-AreResolved fetched (r ∷ refs) xs k h =
      let found = lookup (r.target, r.id) fetched in
      let (x, others, e, here, rest) =
        prepend-ok (require found missing) (stitch fetched refs) xs h in
      rw e (
        lookup-IsEntry (r.target, r.id) x fetched k (require-ok found x missing here),
        stitch-AreResolved fetched refs others k rest,
      )

  validated-IsOf :
      (c : Class) (raw : Value) (xs : List Instance)
      → validated validate c raw ≡ ok xs
      → All (IsOf c) xs
  validated-IsOf c raw xs h = elim (Result-cases (iterate raw)) [
    | inl (rows, e) ↦ validate_each-IsOf c rows xs (ground arith)
    | inr (f, e) ↦ absurd (ground arith)
  ]

  read_typed-IsOf :
      (c : Class) (model : String) (ids : List ℤ) (s : Client) (xs : List Instance)
      → (read_typed validate outside c model ids s).0 ≡ ok xs
      → All (IsOf c) xs
  unfolding read_typed
  read_typed-IsOf c model ids s xs h =
      let (raw, e, same_end) =
        >>=-returns (call outside model "read" (numbers ids ∷ []) [])
          (λ raw. lift (validated validate c raw)) s xs h in
      validated-IsOf c raw xs (sym (ap (λ p. p.0) same_end) ∙ h)

  fetch_groups-IsEntry :
      (groups : Dict Class (List ℤ)) (fetched end : Fetched Class Instance) (s : Client)
      → All IsEntry fetched
      → (fetch_groups odoo_model validate id_of outside groups fetched s).0 ≡ ok end
      → All IsEntry end
  unfolding fetch_groups
  fetch_groups-IsEntry [] fetched end s k h =
      let kept : fetched ≡ end = cc in subst (All IsEntry) kept k
  fetch_groups-IsEntry ((c, ids) ∷ groups) fetched end s k h = elim (Option-cases (odoo_model c)) [
    | inl untyped ↦ absurd (ground arith)
    | inr (model, typed) ↦
        let then_groups : List Instance → Rpc (Fetched Class Instance) =
          λ xs. fetch_groups odoo_model validate id_of outside groups (store id_of c xs fetched) in
        let opened : fetch_groups odoo_model validate id_of outside ((c, ids) ∷ groups) fetched s
            ≡ (read_typed validate outside c model ids >>= then_groups) s =
          rw (typed, fetch_groups) refl in
        let back : ((read_typed validate outside c model ids >>= then_groups) s).0 ≡ ok end =
          sym (ap (λ p. p.0) opened) ∙ h in
        let (xs, e, same_end) =
          >>=-returns (read_typed validate outside c model ids) then_groups s end back in
        fetch_groups-IsEntry groups (store id_of c xs fetched) end
          (read_typed validate outside c model ids s).1
          (store-IsEntry c xs fetched (read_typed-IsOf c model ids s xs e) k)
          (sym (ap (λ p. p.0) same_end) ∙ back)
  ]

  -- If `read` of references returns, it returns one instance for each reference, in their order, that
  -- has the ID of the reference and was validated as one of its class.
  pub read_refs-AreResolved :
      (refs : List (Ref Class)) (s : Client) (xs : List Instance)
      → (read_refs odoo_model validate id_of outside refs s).0 ≡ ok xs
      → AreResolved refs xs
  unfolding read_refs
  read_refs-AreResolved [] s [] h = tt
  read_refs-AreResolved [] s (x ∷ xs) h = absurd cc
  read_refs-AreResolved (r ∷ refs) s xs h =
      elim (Bool-cases (all (is_typed odoo_model) (r ∷ refs))) [
        | inr untyped ↦ absurd (ground arith)
        | inl typed ↦
            let fetch =
              fetch_groups odoo_model validate id_of outside (group_refs [] (r ∷ refs)) [] in
            let then_stitch : Fetched Class Instance → Rpc (List Instance) =
              λ fetched. lift (stitch fetched (r ∷ refs)) in
            let opened : read_refs odoo_model validate id_of outside (r ∷ refs) s
                ≡ (fetch >>= then_stitch) s =
              rw typed refl in
            let back : ((fetch >>= then_stitch) s).0 ≡ ok xs = sym (ap (λ p. p.0) opened) ∙ h in
            let (fetched, e, same_end) = >>=-returns fetch then_stitch s xs back in
            stitch-AreResolved fetched (r ∷ refs) xs
              (fetch_groups-IsEntry (group_refs [] (r ∷ refs)) [] fetched s tt e)
              (sym (ap (λ p. p.0) same_end) ∙ back)
      ]
