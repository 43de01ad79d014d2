-- ===== src/Codegen/Bound.antt =====
-- The names that the annotations of a generated module use are imported there.
use mathlib.Core.Path.{subst}
use godoo_py.Base.{
  String, string_eq, pair_eq, ◌≡◌, refl, Bool, true, ◌&&◌, ◌||◌, List, [], ◌∷◌, ◌++◌, ◌==◌, elem,
  any, arith, inl, inr, eq→path, Bool-cases,
}
use godoo_py.Typed.{
  union, list_origin, ref_origin, other_origin, Annotation, a_class, constant, of, Annotations, nil,
  cons,
}
use godoo_py.Codegen.Modules.{add_entry}

-- The names that need no import, or that every module imports
abbrev pub always_bound : List String
always_bound = "str" ∷ "int" ∷ "float" ∷ "bool" ∷ "None" ∷ "dict" ∷ []

-- The tokens that `generate` makes an import line of
abbrev pub tokens : List String
tokens = "date" ∷ "datetime" ∷ "Literal" ∷ "Any" ∷ "Ref" ∷ []

-- The name is bound by a token of the imports, or by an import of another generated module.
abbrev pub is_bound : List String → List (String × String) → String → Bool
is_bound imports entries name =
    elem name always_bound
    || ((elem name tokens && elem name imports) || any (λ entry. entry.1 == name) entries)

-- Whether each name that the annotation uses is bound
unfoldable mutual
  pub uses_bound : List String → List (String × String) → Annotation → Bool
  uses_bound imports entries (a_class c) = is_bound imports entries c
  uses_bound imports entries (constant v) = true
  uses_bound imports entries (of union args) = args_bound imports entries args
  uses_bound imports entries (of list_origin args) = args_bound imports entries args
  uses_bound imports entries (of ref_origin args) =
      is_bound imports entries "Ref" && args_bound imports entries args
  uses_bound imports entries (of (other_origin o) args) =
      is_bound imports entries o && args_bound imports entries args

  pub args_bound : List String → List (String × String) → Annotations → Bool
  args_bound imports entries nil = true
  args_bound imports entries (cons a rest) =
      uses_bound imports entries a && args_bound imports entries rest

pub and-true : (a b : Bool) → a ≡ true → b ≡ true → a && b ≡ true
and-true a b h k = ground arith

pub and-left : (a b : Bool) → a && b ≡ true → a ≡ true
and-left a b h = ground arith

pub and-right : (a b : Bool) → a && b ≡ true → b ≡ true
and-right a b h = ground arith

-- More imports bind more names.
module _ (imports more : List String) (entries entries' : List (String × String))
    (wider : (name : String)
      → is_bound imports entries name ≡ true
      → is_bound more entries' name ≡ true) where
  mutual
    unfolding uses_bound

    pub wider-uses :
        (a : Annotation) → uses_bound imports entries a ≡ true → uses_bound more entries' a ≡ true
    wider-uses (a_class c) h = wider c h
    wider-uses (constant v) h = refl
    wider-uses (of union args) h = wider-args args h
    wider-uses (of list_origin args) h = wider-args args h
    wider-uses (of ref_origin args) h =
        and-true _ _ (wider "Ref" (and-left _ _ h)) (wider-args args (and-right _ _ h))
    wider-uses (of (other_origin o) args) h =
        and-true _ _ (wider o (and-left _ _ h)) (wider-args args (and-right _ _ h))

    pub wider-args :
        (args : Annotations)
        → args_bound imports entries args ≡ true
        → args_bound more entries' args ≡ true
    wider-args nil h = refl
    wider-args (cons a rest) h =
        and-true _ _ (wider-uses a (and-left _ _ h)) (wider-args rest (and-right _ _ h))

pub elem-append_left :
    (name : String) (xs ys : List String) → elem name xs ≡ true → elem name (xs ++ ys) ≡ true
elem-append_left name [] ys h = absurd cc
elem-append_left name (x ∷ xs) ys h = elim (Bool-cases (name == x)) [
  | inl here ↦ rw here refl
  | inr other ↦ let later = elem-append_left name xs ys (ground arith) in ground arith
]

pub elem-append_right :
    (name : String) (xs ys : List String) → elem name ys ≡ true → elem name (xs ++ ys) ≡ true
elem-append_right name [] ys h = h
elem-append_right name (x ∷ xs) ys h = let later = elem-append_right name xs ys h in ground arith

pub any-append_left :
    (p : String × String → Bool) (xs ys : List (String × String))
    → any p xs ≡ true
    → any p (xs ++ ys) ≡ true
any-append_left p [] ys h = absurd cc
any-append_left p (x ∷ xs) ys h = elim (Bool-cases (p x)) [
  | inl here ↦ rw here refl
  | inr other ↦ let later = any-append_left p xs ys (ground arith) in ground arith
]

any-append_right :
    (p : String × String → Bool) (xs ys : List (String × String))
    → any p ys ≡ true
    → any p (xs ++ ys) ≡ true
any-append_right p [] ys h = h
any-append_right p (x ∷ xs) ys h = let later = any-append_right p xs ys h in ground arith

elem-any :
    (p : String × String → Bool) (x : String × String) (xs : List (String × String))
    → elem x xs ≡ true
    → p x ≡ true
    → any p xs ≡ true
elem-any p x [] h k = absurd cc
elem-any p x (y ∷ xs) h k = elim (Bool-cases (x == y)) [
  | inl same ↦ let here = subst (λ y. p y ≡ true) (eq→path x y same) k in rw here refl
  | inr other ↦ let later = elem-any p x xs (ground arith) k in ground arith
]

-- An entry that was added is there, and so are the others.
pub add_entry-here :
    (p : String × String → Bool) (entry : String × String) (entries : List (String × String))
    → p entry ≡ true
    → any p (add_entry entry entries) ≡ true
add_entry-here p entry entries h = elim (Bool-cases (elem entry entries)) [
  | inl there ↦ rw (there, add_entry) (elem-any p entry entries there h)
  | inr new ↦ rw (new, add_entry) (any-append_right p entries (entry ∷ []) (rw h refl))
]

pub add_entry-kept :
    (p : String × String → Bool) (entry : String × String) (entries : List (String × String))
    → any p entries ≡ true
    → any p (add_entry entry entries) ≡ true
add_entry-kept p entry entries h = elim (Bool-cases (elem entry entries)) [
  | inl there ↦ rw (there, add_entry) h
  | inr new ↦ rw (new, add_entry) (any-append_left p entries (entry ∷ []) h)
]
