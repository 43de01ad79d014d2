-- ===== src/Codegen/Names.antt =====
-- The names that an annotation uses are bound where all its names are.
use mathlib.Core.Path.{subst}
use godoo_py.Base.{
  String, string_eq, ◌≡◌, sym, inl, inr, Bool, true, false, ◌||◌, List, ◌==◌, arith, eq→path,
  Bool-cases,
}
use godoo_py.Typed.{
  union, list_origin, ref_origin, other_origin, Annotation, a_class, constant, of, Annotations, nil,
  cons,
}
use godoo_py.Codegen.Bound.{is_bound, uses_bound, args_bound}

unfoldable mutual
  -- The annotation uses the name.
  pub uses : String → Annotation → Bool
  uses name (a_class c) = name == c
  uses name (constant v) = false
  uses name (of union args) = name == "Optional" || args_use name args
  uses name (of list_origin args) = args_use name args
  uses name (of ref_origin args) = name == "Ref" || args_use name args
  uses name (of (other_origin o) args) = name == o || args_use name args

  pub args_use : String → Annotations → Bool
  args_use name nil = false
  args_use name (cons a rest) = uses name a || args_use name rest

module _ (imports : List String) (entries : List (String × String)) (name : String) where
  named-is_bound :
      (c : String)
      → (name == c) ≡ true
      → is_bound imports entries c ≡ true
      → is_bound imports entries name ≡ true
  named-is_bound c same h =
      subst (λ c. is_bound imports entries c ≡ true) (sym (eq→path name c same)) h

  mutual
    unfolding uses uses_bound

    pub uses-is_bound :
        (a : Annotation)
        → uses_bound imports entries a ≡ true
        → uses name a ≡ true
        → (name == "Optional" || is_bound imports entries name) ≡ true
    uses-is_bound (a_class c) h u = let found = named-is_bound c u h in ground (arith, found)
    uses-is_bound (constant v) h u = absurd cc
    uses-is_bound (of union args) h u = elim (Bool-cases (name == "Optional")) [
      | inl always ↦ ground (arith, always)
      | inr other ↦ args-is_bound args h (ground (arith, u, other))
    ]
    uses-is_bound (of list_origin args) h u = args-is_bound args h u
    uses-is_bound (of ref_origin args) h u = elim (Bool-cases (name == "Ref")) [
      | inl same ↦
          let found = named-is_bound "Ref" same (ground (arith, h)) in ground (arith, found)
      | inr other ↦ args-is_bound args (ground (arith, h)) (ground (arith, u, other))
    ]
    uses-is_bound (of (other_origin o) args) h u = elim (Bool-cases (name == o)) [
      | inl same ↦ let found = named-is_bound o same (ground (arith, h)) in ground (arith, found)
      | inr other ↦ args-is_bound args (ground (arith, h)) (ground (arith, u, other))
    ]

    args-is_bound :
        (args : Annotations)
        → args_bound imports entries args ≡ true
        → args_use name args ≡ true
        → (name == "Optional" || is_bound imports entries name) ≡ true
    args-is_bound nil h u = absurd cc
    args-is_bound (cons a rest) h u = elim (Bool-cases (uses name a)) [
      | inl here ↦ uses-is_bound a (ground (arith, h)) here
      | inr other ↦ args-is_bound rest (ground (arith, h)) (ground (arith, u, other))
    ]
