-- ===== src/Typed.antt =====
-- packages/godoo-client/src/godoo/client/_pydantic_transform.py: typed models. This file has the
-- annotations of their fields, and the tests that the transforms make on them. A class is its name, and
-- `None` in an annotation is the class of `None`.
pub mod Wire
pub mod Instances
pub mod Partial
use godoo_py.Base.{
  String, string_eq, Bool, true, false, ◌&&◌, ◌||◌, Option, none, some, List, [], ◌∷◌, ◌==◌,
  if◌then◌else◌,
}
use godoo_py.Base.Dict.{Dict}

-- What `get_origin` tells of a generic annotation
pub data Origin : Type 0 where
  union : Origin
  list_origin : Origin
  ref_origin : Origin
  other_origin : String → Origin

-- An annotation: a class, a value of `Literal`, or a generic one with its `get_args`
mutual
  pub data Annotation : Type 0 where
    a_class : String → Annotation
    constant : String → Annotation
    of : Origin → Annotations → Annotation

  pub data Annotations : Type 0 where
    nil : Annotations
    cons : Annotation → Annotations → Annotations

abbrev pub none_class : Annotation
none_class = a_class "None"

-- `arg is target` and `get_origin(arg) is Ref`
abbrev pub is_class : String → Annotation → Bool
is_class target (a_class c) = c == target
is_class target _ = false

abbrev pub has_ref_origin : Annotation → Bool
has_ref_origin (of ref_origin args) = true
has_ref_origin _ = false

abbrev pub has_list_origin : Annotation → Bool
has_list_origin (of list_origin args) = true
has_list_origin _ = false

-- `any(p(arg) for arg in args)`
abbrev pub any_arg : (Annotation → Bool) → Annotations → Bool
any_arg p nil = false
any_arg p (cons a rest) = p a || any_arg p rest

-- `_annotation_is`
unfoldable pub annotation_is : Annotation → String → Bool
annotation_is (a_class c) target = c == target
annotation_is (constant v) target = false
annotation_is (of origin args) target = any_arg (is_class target) args

-- `_annotation_mentions_ref`, and its loop over the arguments
unfoldable mutual
  pub annotation_mentions_ref : Annotation → Bool
  annotation_mentions_ref (a_class c) = false
  annotation_mentions_ref (constant v) = false
  annotation_mentions_ref (of ref_origin args) = true
  annotation_mentions_ref (of origin args) = args_mention_ref args

  pub args_mention_ref : Annotations → Bool
  args_mention_ref nil = false
  args_mention_ref (cons a rest) =
      (has_ref_origin a || is_class "Ref" a) || (annotation_mentions_ref a || args_mention_ref rest)

-- `args[0] if args and isinstance(args[0], type) else None`
abbrev pub first_class : Annotations → Option String
first_class (cons (a_class c) rest) = some c
first_class _ = none

-- `_ref_target_class`, and its loop over the arguments
unfoldable mutual
  pub ref_target_class : Annotation → Option String
  ref_target_class (a_class c) = none
  ref_target_class (constant v) = none
  ref_target_class (of ref_origin args) = first_class args
  ref_target_class (of origin args) = args_target_class args

  pub args_target_class : Annotations → Option String
  args_target_class nil = none
  args_target_class (cons (of ref_origin inner) rest) = first_class inner
  args_target_class (cons a rest) =
      let others = args_target_class rest in
      if annotation_mentions_ref a
      then elim (ref_target_class a) [ none ↦ others | some c ↦ some c ]
      else others

-- The search for a list: of the annotation itself, or of an argument of it
unfoldable pub is_list_annotated : Annotation → Bool
is_list_annotated (of list_origin args) = true
is_list_annotated (of origin args) = any_arg has_list_origin args
is_list_annotated a = false

-- What pydantic tells of a field: its annotation, and the flags of `json_schema_extra`
pub record FieldInfo : Type 0 where
  pub annotation : Annotation
  pub odoo_readonly : Bool
  pub odoo_x2many : Bool

-- What a class of `OdooBaseModel` says: `__odoo_model__` and `model_fields`
pub record Model : Type 0 where
  pub odoo_model : String
  pub model_fields : Dict String FieldInfo
