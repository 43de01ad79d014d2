-- ===== src/Typed/Partial/Reads.antt =====
-- A partial model reads a field as its class does.
use godoo_py.Base.{
  String, string_eq, ◌≡◌, ◌∙◌, ap, refl, Bool, true, false, not, ◌&&◌, ◌||◌, Option, none, some,
  arith, if◌then◌else◌, inl, inr, Bool-cases, ◌==◌,
}
use godoo_py.Value.{Value, null, bool, int, float, str, list, tuple, dict}
use godoo_py.Typed.{
  union, list_origin, ref_origin, other_origin, Annotation, a_class, constant, of, Annotations, nil,
  cons, none_class, is_class, has_ref_origin, has_list_origin, any_arg, annotation_is,
  annotation_mentions_ref, args_mention_ref, ref_target_class, args_target_class, is_list_annotated,
}
use godoo_py.Typed.Wire.{
  Cell, raw, a_ref, a_date, a_datetime, as_pair, iso_date, iso_datetime, Calendar, wire_value,
  text_cell,
}
use godoo_py.Typed.Partial.{append_arg, optional}

any_arg-append :
    (p : Annotation → Bool) (args : Annotations) (a : Annotation)
    → p a ≡ false
    → any_arg p (append_arg args a) ≡ any_arg p args
any_arg-append p nil a h = rw h refl
any_arg-append p (cons b rest) a h = ap (λ r. p b || r) (any_arg-append p rest a h)

-- `None` among the arguments is no reference.
args_mention_ref-append :
    (args : Annotations) → args_mention_ref (append_arg args none_class) ≡ args_mention_ref args
unfolding annotation_mentions_ref
args_mention_ref-append nil = refl
args_mention_ref-append (cons b rest) =
    ap (λ r. (has_ref_origin b || is_class "Ref" b) || (annotation_mentions_ref b || r))
      (args_mention_ref-append rest)

-- The target of an argument, or else that of the rest
abbrev first_found : Annotation → Option String → Option String
first_found a others =
    if annotation_mentions_ref a
    then elim (ref_target_class a) [ none ↦ others | some c ↦ some c ]
    else others

args_target_class-append :
    (args : Annotations) → args_target_class (append_arg args none_class) ≡ args_target_class args
unfolding ref_target_class annotation_mentions_ref
args_target_class-append nil = refl
args_target_class-append (cons (a_class c) rest) = args_target_class-append rest
args_target_class-append (cons (constant v) rest) = args_target_class-append rest
args_target_class-append (cons (of ref_origin inner) rest) = refl
args_target_class-append (cons (of union inner) rest) =
    ap (first_found (of union inner)) (args_target_class-append rest)
args_target_class-append (cons (of list_origin inner) rest) =
    ap (first_found (of list_origin inner)) (args_target_class-append rest)
args_target_class-append (cons (of (other_origin o) inner) rest) =
    ap (first_found (of (other_origin o) inner)) (args_target_class-append rest)

-- No argument is a class that the transforms look for, or a list.
abbrev pub has_plain_args : Annotations → Bool
has_plain_args args =
    not (any_arg (is_class "bool") args)
    && (not (any_arg (is_class "date") args)
        && (not (any_arg (is_class "datetime") args) && not (any_arg has_list_origin args)))

-- A class other than `Ref`, a union, or a generic annotation with plain arguments
abbrev pub is_regular : Annotation → Bool
is_regular (a_class c) = not (c == "Ref")
is_regular (constant v) = false
is_regular (of union args) = true
is_regular (of origin args) = has_plain_args args

-- The transforms tell no difference between the two annotations.
pub record Agree (a b : Annotation) : Type 0 where
  lists : is_list_annotated a ≡ is_list_annotated b
  is_bool : annotation_is a "bool" ≡ annotation_is b "bool"
  is_date : annotation_is a "date" ≡ annotation_is b "date"
  is_datetime : annotation_is a "datetime" ≡ annotation_is b "datetime"
  refs : annotation_mentions_ref a ≡ annotation_mentions_ref b
  targets : annotation_mentions_ref b ≡ true → ref_target_class a ≡ ref_target_class b

Agree-refl : (a : Annotation) → Agree a a
Agree-refl a = record {
  lists = refl;
  is_bool = refl;
  is_date = refl;
  is_datetime = refl;
  refs = refl;
  targets = λ h. refl;
}

class-Agree :
    (c : String)
    → (c == "Ref") ≡ false
    → Agree (of union (cons (a_class c) (cons none_class nil))) (a_class c)
unfolding annotation_is annotation_mentions_ref ref_target_class is_list_annotated
class-Agree c h = record {
  lists = refl;
  is_bool = ground arith;
  is_date = ground arith;
  is_datetime = ground arith;
  refs = ground arith;
  targets = λ e. absurd cc;
}

union-Agree : (args : Annotations) → Agree (of union (append_arg args none_class)) (of union args)
unfolding annotation_is annotation_mentions_ref ref_target_class is_list_annotated
union-Agree args = record {
  lists = any_arg-append has_list_origin args none_class refl;
  is_bool = any_arg-append (is_class "bool") args none_class refl;
  is_date = any_arg-append (is_class "date") args none_class refl;
  is_datetime = any_arg-append (is_class "datetime") args none_class refl;
  refs = args_mention_ref-append args;
  targets = λ h. args_target_class-append args;
}

list-Agree :
    (args : Annotations)
    → has_plain_args args ≡ true
    → Agree (of union (cons (of list_origin args) (cons none_class nil))) (of list_origin args)
unfolding annotation_is annotation_mentions_ref ref_target_class is_list_annotated
list-Agree args h = record {
  lists = refl;
  is_bool = ground arith;
  is_date = ground arith;
  is_datetime = ground arith;
  refs = ground arith;
  targets = λ e. ground arith;
}

ref-Agree :
    (args : Annotations)
    → has_plain_args args ≡ true
    → Agree (of union (cons (of ref_origin args) (cons none_class nil))) (of ref_origin args)
unfolding annotation_is annotation_mentions_ref ref_target_class is_list_annotated
ref-Agree args h = record {
  lists = ground arith;
  is_bool = ground arith;
  is_date = ground arith;
  is_datetime = ground arith;
  refs = refl;
  targets = λ e. refl;
}

other-Agree :
    (o : String) (args : Annotations)
    → has_plain_args args ≡ true
    → Agree
        (of union (cons (of (other_origin o) args) (cons none_class nil)))
        (of (other_origin o) args)
unfolding annotation_is annotation_mentions_ref ref_target_class is_list_annotated
other-Agree o args h = record {
  lists = ground arith;
  is_bool = ground arith;
  is_date = ground arith;
  is_datetime = ground arith;
  refs = ground arith;
  targets = λ e. ground arith;
}

optional-Agree : (a : Annotation) → is_regular a ≡ true → Agree (optional a) a
unfolding optional
optional-Agree (a_class c) h = elim (Bool-cases (c == "None")) [
  | inl same ↦ rw same (Agree-refl (a_class c))
  | inr other ↦ rw other (class-Agree c (ground arith))
]
optional-Agree (constant v) h = absurd cc
optional-Agree (of union args) h = elim (Bool-cases (any_arg (is_class "None") args)) [
  | inl same ↦ rw same (Agree-refl (of union args))
  | inr other ↦ rw other (union-Agree args)
]
optional-Agree (of list_origin args) h = list-Agree args h
optional-Agree (of ref_origin args) h = ref-Agree args h
optional-Agree (of (other_origin o) args) h = other-Agree o args h

module _ {Date DateTime : Type 0} (calendar : Calendar Date DateTime) where
  -- The last rule, by what it takes from the annotation
  abbrev pair_cell : Bool → Option String → Value → Cell Date DateTime
  pair_cell mentions target v = elim (if mentions then as_pair v else none) [
    | none ↦ raw v
    | some (n, name) ↦ a_ref (record { id = n; name = name; target = target })
  ]

  pair_cell-Agree :
      (a b : Annotation) (v : Value)
      → Agree a b
      → pair_cell (annotation_mentions_ref a) (ref_target_class a) v
        ≡ pair_cell (annotation_mentions_ref b) (ref_target_class b) v
  pair_cell-Agree a b v h = elim (Bool-cases (annotation_mentions_ref b)) [
    | inl refers ↦ rw (h.refs, h.targets refers) refl
    | inr plain ↦ rw (h.refs, plain) refl
  ]

  -- The rules for a text, by their tests
  abbrev by_tests : Bool → Bool → String → Cell Date DateTime
  by_tests as_datetime as_date text =
      elim (if as_datetime then iso_datetime calendar text else none) [
        | some t ↦ a_datetime t
        | none ↦ elim (if as_date && not as_datetime then iso_date calendar text else none) [
          | some d ↦ a_date d
          | none ↦ raw (str text)
        ]
      ]

  wire_value-Agree :
      (a b : Annotation) (v : Value) → Agree a b → wire_value calendar a v ≡ wire_value calendar b v
  unfolding wire_value text_cell
  wire_value-Agree a b (bool false) h = rw (h.lists, h.is_bool) refl
  wire_value-Agree a b (str text) h =
      ap (λ as_date. by_tests (annotation_is a "datetime") as_date text) h.is_date
      ∙ ap (λ as_datetime. by_tests as_datetime (annotation_is b "date") text) h.is_datetime
  wire_value-Agree a b null h = pair_cell-Agree a b null h
  wire_value-Agree a b (bool true) h = pair_cell-Agree a b (bool true) h
  wire_value-Agree a b (int n) h = pair_cell-Agree a b (int n) h
  wire_value-Agree a b (float x) h = pair_cell-Agree a b (float x) h
  wire_value-Agree a b (list vs) h = pair_cell-Agree a b (list vs) h
  wire_value-Agree a b (tuple vs) h = pair_cell-Agree a b (tuple vs) h
  wire_value-Agree a b (dict fs) h = pair_cell-Agree a b (dict fs) h

  -- A partial model reads every wire value as its class does, if the annotation of the field is a class
  -- other than `Ref`, a union, or generic with no argument that is a list, a date, a datetime or a
  -- `bool`.
  wire_value-optional :
      (a : Annotation) (v : Value)
      → is_regular a ≡ true
      → wire_value calendar (optional a) v ≡ wire_value calendar a v
  wire_value-optional a v h = wire_value-Agree (optional a) a v (optional-Agree a h)
