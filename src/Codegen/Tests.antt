-- ===== src/Codegen/Tests.antt =====
-- A model that refers to itself, and a date.
use mathlib.Core.List.{Memᴰ}
use godoo_py.Base.{
  String, string_eq, pair_eq, ◌≡◌, refl, true, false, Option, none, some, List, [], ◌∷◌, ◌==◌, any,
  ok,
}
use godoo_py.Value.{str}
use godoo_py.Introspection.{FieldSchema, ModelSchema}
use godoo_py.Typed.{a_class, of, ref_origin, Annotations}
use godoo_py.Typed.Wire.{Calendar, iso_date, wire_value}
use godoo_py.Codegen.{
  Texts, Emission, emit, pydantic_field, many2one_field, model_to_classname, model_to_stem,
  split_parts, optional,
}
use godoo_py.Codegen.Modules.{
  Progress, no_progress, is_skipped, cross_import, emit_field, emit_fields,
}
use godoo_py.Codegen.Lines.{assembled, generate, field_line, annotation_str, default_expr}
use godoo_py.Codegen.Names.{uses}
use godoo_py.Codegen.Importing.{IsUsable, generate-IsUsable}
use godoo_py.Codegen.Emitted.{emit_fields-imports_self}
use godoo_py.Codegen.Typing.{inhabits, conforms}
use godoo_py.Codegen.Typed.{pydantic_field-typed}

abbrev texts : Texts
texts = record {
  repr = λ s. s;
  capitalize = λ s. s;
  is_identifier = λ s. true;
  is_keyword = λ s. false;
}

abbrev field_of : String → String → Option String → FieldSchema
field_of name ttype relation = record {
  name = name;
  ttype = ttype;
  field_description = "";
  relation = relation;
  relation_field = none;
  required = false;
  readonly = false;
  store = true;
  index = false;
  copy = true;
  translate = false;
  help = "";
  compute = none;
  depends = [];
  modules = [];
  on_delete = none;
  size = none;
  digits = none;
  selection = [];
}

abbrev parent : FieldSchema
parent = field_of "parent_id" "many2one" (some "res.partner")

abbrev born : FieldSchema
born = field_of "born" "date" none

abbrev partner : ModelSchema
partner = record {
  name = "res.partner";
  display_name = "Contact";
  transient = false;
  fields = ("id", field_of "id" "integer" none) ∷ ("parent_id", parent) ∷ ("born", born) ∷ [];
}

abbrev in_set : List String
in_set = "res.partner" ∷ []

abbrev parent_line : Emission
parent_line = record {
  annotation = optional (of ref_origin (Annotations.cons (a_class "respartner") Annotations.nil));
  default = "None";
  comment = "";
  imports = "Ref" ∷ [];
  odoo_readonly = false;
  odoo_x2many = false;
}

abbrev progress : Progress
progress = record {
  imports = "Ref" ∷ "date" ∷ [];
  need_field_import = false;
  cross_imports = ("res_partner", "respartner") ∷ [];
  emitted =
      ("parent_id", parent_line)
      ∷ (
        "born",
        record {
          annotation = optional (a_class "date");
          default = "None";
          comment = "";
          imports = "date" ∷ [];
          odoo_readonly = false;
          odoo_x2many = false;
        },
      )
      ∷ [];
}

emitted : emit_fields texts in_set partner.fields no_progress ≡ ok progress
unfolding emit_fields is_skipped emit_field cross_import pydantic_field many2one_field
    model_to_classname model_to_stem split_parts emit
emitted = refl

line :
    field_line texts (
      "parent_id",
      record {
        annotation =
            optional (of ref_origin (Annotations.cons (a_class "ResPartner") Annotations.nil));
        default = "None";
        comment = "";
        imports = "Ref" ∷ [];
        odoo_readonly = false;
        odoo_x2many = false;
      },
    )
    ≡ "    parent_id: Optional[Ref[ResPartner]] = None"
unfolding field_line annotation_str default_expr
line = refl

abbrev partner_lines : List String
partner_lines = assembled texts "res.partner" "respartner" progress

generated : generate texts in_set partner ≡ ok partner_lines
unfolding generate emit_fields is_skipped emit_field cross_import pydantic_field many2one_field
    model_to_classname model_to_stem split_parts emit
generated = refl

generate-IsUsable_example : IsUsable partner_lines "respartner"
unfolding uses
generate-IsUsable_example =
    generate-IsUsable texts in_set partner partner_lines progress ("parent_id", parent_line)
      "respartner" generated emitted (Memᴰ.head refl) refl

kept : is_skipped texts in_set "parent_id" ≡ false
unfolding is_skipped
kept = refl

emit_fields-imports_self_example :
    any (λ entry. entry.0 == model_to_stem "res.partner") progress.cross_imports ≡ true
emit_fields-imports_self_example =
    emit_fields-imports_self texts in_set partner "parent_id" parent progress emitted refl kept refl
      refl

abbrev calendar : Calendar String String
calendar = record {
  parse_date = some;
  print_date = λ d. d;
  parse_datetime = some;
  print_datetime = λ t. t;
}

abbrev date_line : Emission
date_line = record {
  annotation = optional (a_class "date");
  default = "None";
  comment = "";
  imports = "date" ∷ [];
  odoo_readonly = false;
  odoo_x2many = false;
}

date_line-emitted : pydantic_field texts in_set born ≡ ok date_line
unfolding pydantic_field emit
date_line-emitted = refl

date_conforms : conforms calendar born (str "1815-12-10") ≡ true
unfolding iso_date
date_conforms = refl

pydantic_field-typed_example :
    inhabits
      (optional (a_class "date"))
      (wire_value calendar (optional (a_class "date")) (str "1815-12-10"))
    ≡ true
pydantic_field-typed_example =
    pydantic_field-typed calendar texts in_set born (str "1815-12-10") date_line date_line-emitted
      date_conforms
