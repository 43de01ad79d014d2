-- ===== src/Base/Dict.antt =====
-- A Python dict as an association list in insertion order.
use mathlib.Core.Path.{◌≡◌, refl}
use mathlib.Core.Bool.{Bool, true, false, ◌&&◌}
use mathlib.Core.Option.{Option, none, some}
use mathlib.Core.List.{List, [], ◌∷◌}
use native.Mathlib.Omega.{arith}
use godoo_py.Base.Tests.{if◌then◌else◌}
use godoo_py.Base.Eq.{Eq, ◌==◌, eq_refl}

abbrev pub Dict {ℓ κ} : Type ℓ → Type κ → Type (ℓ ⊔ κ)
Dict K V = List (K × V)

module _ {ℓ κ} {K : Type ℓ} {V : Type κ} where
  -- `list(d)`
  abbrev pub keys : Dict K V → List K
  keys [] = []
  keys ((k, v) ∷ d) = k ∷ keys d

  -- `list(d.values())`
  abbrev pub values : Dict K V → List V
  values [] = []
  values ((k, v) ∷ d) = v ∷ values d

module _ {ℓ κ} {K : Type ℓ} {V : Type κ} ⦃e : Eq K⦄ where
  -- `d.get(k)`
  abbrev pub lookup : K → Dict K V → Option V
  lookup k [] = none
  lookup k ((j, v) ∷ d) = if k == j then some v else lookup k d

  -- `k in d`
  abbrev pub contains : K → Dict K V → Bool
  contains k [] = false
  contains k ((j, v) ∷ d) = if k == j then true else contains k d

  -- `d[k] = v`
  abbrev pub insert : K → V → Dict K V → Dict K V
  insert k v [] = (k, v) ∷ []
  insert k v ((j, w) ∷ d) = if k == j then (j, v) ∷ d else (j, w) ∷ insert k v d

  -- `{**d, **c}`
  abbrev pub merge : Dict K V → Dict K V → Dict K V
  merge d [] = d
  merge d ((k, v) ∷ c) = merge (insert k v d) c

  -- No key is listed twice, as in every dict.
  abbrev pub is_dict : Dict K V → Bool
  is_dict [] = true
  is_dict ((k, v) ∷ d) = (if contains k d then false else true) && is_dict d

  pub lookup-insert :
      (j k : K) (v : V) (d : Dict K V)
      → lookup j (insert k v d) ≡ (if j == k then some v else lookup j d)
  lookup-insert j k v [] = refl
  lookup-insert j k v ((i, w) ∷ d) =
      ground (arith, e.beq_iff j k, e.beq_iff k i, e.beq_iff j i, lookup-insert j k v d)

  pub lookup-insert_self : (k : K) (v : V) (d : Dict K V) → lookup k (insert k v d) ≡ some v
  lookup-insert_self k v d = simp (lookup-insert, eq_refl)

  pub contains-insert :
      (j k : K) (v : V) (d : Dict K V)
      → contains j (insert k v d) ≡ (if j == k then true else contains j d)
  contains-insert j k v [] = refl
  contains-insert j k v ((i, w) ∷ d) =
      ground (arith, e.beq_iff j k, e.beq_iff k i, e.beq_iff j i, contains-insert j k v d)

  pub insert-is_dict :
      (k : K) (v : V) (d : Dict K V) → is_dict d ≡ true → is_dict (insert k v d) ≡ true
  insert-is_dict k v [] h = refl
  insert-is_dict k v ((i, w) ∷ d) h =
      ground (arith, e.beq_iff k i, e.beq_iff i k, insert-is_dict k v d, contains-insert i k v d)

  pub lookup-contains : (k : K) (d : Dict K V) → contains k d ≡ false → lookup k d ≡ none
  lookup-contains k [] h = refl
  lookup-contains k ((i, w) ∷ d) h = ground (arith, lookup-contains k d)

  -- In `{**d, **c}` the right side wins.
  pub lookup-merge :
      (k : K) (d c : Dict K V)
      → is_dict c ≡ true
      → lookup k (merge d c) ≡ (if contains k c then lookup k c else lookup k d)
  lookup-merge k d [] h = refl
  lookup-merge k d ((j, v) ∷ c) h = ground (
    arith,
    e.beq_iff k j,
    lookup-merge k (insert j v d) c,
    lookup-insert k j v d,
    lookup-contains k c,
  )

  pub contains-lookup : (k : K) (v : V) (d : Dict K V) → lookup k d ≡ some v → contains k d ≡ true
  contains-lookup k v [] h = cc
  contains-lookup k v ((i, w) ∷ d) h = ground (arith, contains-lookup k v d)
