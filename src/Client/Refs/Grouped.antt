-- ===== src/Client/Refs/Grouped.antt =====
-- The groups of the references: every ID once, under its class.
use godoo_py.Base.Eq.{Eq}
use godoo_py.Base.{
  ℤ, int_eq, ◌≡◌, refl, Bool, true, false, ◌&&◌, ◌||◌, ◌==◌, none, some, List, [], ◌∷◌, ◌++◌, elem,
  any, is_unique, All, arith, inl, inr, Bool-cases, Option-cases,
}
use godoo_py.Base.Dict.{Dict, lookup, insert, is_dict, lookup-insert, insert-is_dict}
use godoo_py.Client.Refs.{Ref, add_ref, group_refs}

module _ {A : Type 0} ⦃e : Eq A⦄ where
  elem-append : (a b : A) (xs : List A) → elem a (xs ++ (b ∷ [])) ≡ (elem a xs || a == b)
  elem-append a b [] = ground arith
  elem-append a b (x ∷ xs) = ground (arith, elem-append a b xs)

  is_unique-append :
      (b : A) (xs : List A)
      → is_unique xs ≡ true
      → elem b xs ≡ false
      → is_unique (xs ++ (b ∷ [])) ≡ true
  is_unique-append b [] h k = refl
  is_unique-append b (x ∷ xs) h k =
      ground (arith, is_unique-append b xs, elem-append x b xs, e.beq_iff x b, e.beq_iff b x)

module _ {Class : Type 0} ⦃same : Eq Class⦄ where
  -- The ID is in the group of the class.
  abbrev pub is_grouped : Class → ℤ → Dict Class (List ℤ) → Bool
  is_grouped c i groups = elim (lookup c groups) [ none ↦ false | some ids ↦ elem i ids ]

  -- One of the references has the class and the ID.
  abbrev pub is_asked : Class → ℤ → List (Ref Class) → Bool
  is_asked c i refs = any (λ r. c == r.target && i == r.id) refs

  -- No ID is listed twice in a group.
  abbrev pub AreUnique : Dict Class (List ℤ) → Type 0
  AreUnique groups = All (λ g. is_unique g.1 ≡ true) groups

  add_ref-is_grouped :
      (c : Class) (i : ℤ) (r : Ref Class) (groups : Dict Class (List ℤ))
      → is_grouped c i (add_ref r groups) ≡ ((c == r.target && i == r.id) || is_grouped c i groups)
  unfolding add_ref
  add_ref-is_grouped c i r groups = elim (Option-cases (lookup r.target groups)) [
    | inl new ↦ ground (arith, lookup-insert c r.target (r.id ∷ []) groups, same.beq_iff c r.target)
    | inr (ids, old) ↦ ground (
      arith,
      lookup-insert c r.target (ids ++ (r.id ∷ [])) groups,
      same.beq_iff c r.target,
      elem-append i r.id ids,
      int_eq.beq_iff i r.id,
    )
  ]

  group_refs-is_grouped :
      (c : Class) (i : ℤ) (groups : Dict Class (List ℤ)) (refs : List (Ref Class))
      → is_grouped c i (group_refs groups refs) ≡ (is_asked c i refs || is_grouped c i groups)
  unfolding group_refs
  group_refs-is_grouped c i groups [] = refl
  group_refs-is_grouped c i groups (r ∷ refs) =
      ground
        (arith, group_refs-is_grouped c i (add_ref r groups) refs, add_ref-is_grouped c i r groups)

  insert-AreUnique :
      (c : Class) (ids : List ℤ) (groups : Dict Class (List ℤ))
      → is_unique ids ≡ true
      → AreUnique groups
      → AreUnique (insert c ids groups)
  insert-AreUnique c ids [] h k = (h, tt)
  insert-AreUnique c ids ((d, old) ∷ groups) h k = elim (Bool-cases (c == d)) [
    | inl e ↦ rw e (h, k.1)
    | inr e ↦ rw e (k.0, insert-AreUnique c ids groups h k.1)
  ]

  lookup_unique :
      (c : Class) (ids : List ℤ) (groups : Dict Class (List ℤ))
      → AreUnique groups
      → lookup c groups ≡ some ids
      → is_unique ids ≡ true
  lookup_unique c ids [] k h = cc
  lookup_unique c ids ((d, old) ∷ groups) k h = ground (arith, k.0, lookup_unique c ids groups k.1)

  add_ref-AreUnique :
      (r : Ref Class) (groups : Dict Class (List ℤ))
      → AreUnique groups
      → AreUnique (add_ref r groups)
  unfolding add_ref
  add_ref-AreUnique r groups k = elim (Option-cases (lookup r.target groups)) [
    | inl new ↦ rw (new, add_ref) (insert-AreUnique r.target (r.id ∷ []) groups refl k)
    | inr (ids, old) ↦ elim (Bool-cases (elem r.id ids)) [
      | inl there ↦ rw (old, add_ref) (rw there k)
      | inr fresh ↦
          rw (old, add_ref)
            (rw fresh (
              insert-AreUnique r.target (ids ++ (r.id ∷ [])) groups
                (is_unique-append r.id ids (lookup_unique r.target ids groups k old) fresh) k))
    ]
  ]

  add_ref-is_dict :
      (r : Ref Class) (groups : Dict Class (List ℤ))
      → is_dict groups ≡ true
      → is_dict (add_ref r groups) ≡ true
  unfolding add_ref
  add_ref-is_dict r groups h = elim (Option-cases (lookup r.target groups)) [
    | inl new ↦ rw (new, add_ref) (insert-is_dict r.target (r.id ∷ []) groups h)
    | inr (ids, old) ↦ elim (Bool-cases (elem r.id ids)) [
      | inl there ↦ rw (old, add_ref) (rw there h)
      | inr fresh ↦
          rw (old, add_ref) (rw fresh (insert-is_dict r.target (ids ++ (r.id ∷ [])) groups h))
    ]
  ]

  pub groups-IsGrouped :
      (groups : Dict Class (List ℤ)) (refs : List (Ref Class))
      → is_dict groups ≡ true
      → AreUnique groups
      → (is_dict (group_refs groups refs) ≡ true) × AreUnique (group_refs groups refs)
  unfolding group_refs
  groups-IsGrouped groups [] h k = (h, k)
  groups-IsGrouped groups (r ∷ refs) h k =
      groups-IsGrouped (add_ref r groups) refs (add_ref-is_dict r groups h)
        (add_ref-AreUnique r groups k)

  -- The groups have each class once, and each ID once in its group; the IDs of a group are exactly
  -- those of the references to its class.
  group_refs-IsGrouped :
      (refs : List (Ref Class)) (c : Class) (i : ℤ)
      → (is_dict (group_refs [] refs) ≡ true)
        × AreUnique (group_refs [] refs)
        × (is_grouped c i (group_refs [] refs) ≡ is_asked c i refs)
  group_refs-IsGrouped refs c i =
      let (h, k) = groups-IsGrouped [] refs refl tt in
      (h, k, ground (arith, group_refs-is_grouped c i [] refs))
