-- ===== src/Typed/Instances/Tests.antt =====
-- A partner with a name, which is read, changed and written.
use godoo_py.Base.{
  pos, String, string_eq, ◌≡◌, ◌∙◌, sym, ap, refl, true, false, some, List, [], ◌∷◌, any, elem, ok,
  err,
}
use godoo_py.Base.Dict.{Dict, insert, keys}
use godoo_py.Value.{Value, null, bool, int, str, list, nil, cons}
use godoo_py.Faults.{validation}
use godoo_py.Typed.{
  Annotation, a_class, of, list_origin, union, none_class, Model, Annotations, annotation_is,
  annotation_mentions_ref, is_list_annotated,
}
use godoo_py.Typed.Wire.{Cell, raw, Calendar, wire_value, odoo_wire_transforms, text_cell}
use godoo_py.Typed.Instances.{
  Instance, Pydantic, add, tracked, set_attribute, model_post_init, is_read, model_validate,
  validate_typed, sent_value, serialize_for_write,
}
use godoo_py.Typed.Instances.Payload.{
  IsWritten, HasAttributes, is_refused, user_fields, serialize_for_write-IsWritten,
}
use godoo_py.Typed.Instances.Tracked.{assign_all, elem-add}
use godoo_py.Typed.Instances.Edited.{read_then_write-returns}
use godoo_py.Typed.Instances.Refused.{Sets, assigned-refused}
use godoo_py.Typed.Instances.RoundTrip.{with_t, wire_value-sent}

abbrev calendar : Calendar String String
calendar = record {
  parse_date = some;
  print_date = λ d. d;
  parse_datetime = some;
  print_datetime = λ t. t;
}

abbrev optional : Annotation → Annotation
optional a = of union (Annotations.cons a (Annotations.cons none_class Annotations.nil))

abbrev partner : Model
partner = record {
  odoo_model = "res.partner";
  model_fields =
      (
        "name",
        record {
          annotation = optional (a_class "str");
          odoo_readonly = false;
          odoo_x2many = false;
        },
      )
      ∷ (
        "child_ids",
        record {
          annotation = of list_origin (Annotations.cons (a_class "int") Annotations.nil);
          odoo_readonly = false;
          odoo_x2many = true;
        },
      )
      ∷ [];
}

-- A stand-in for pydantic that takes every value
abbrev pydantic : Pydantic String String
pydantic = record {
  construct = λ model d. some (d, keys d);
  assign = λ model state name cell. some (insert name cell state.0, add name state.1);
}

pydantic-Sets : Sets pydantic
pydantic-Sets model before after name cell h k =
    let same : add name before.1 ≡ after.1 = cc in ap (elem k) (sym same) ∙ elem-add k name before.1

abbrev row : Dict String (Cell String String)
row = ("name", raw (str "Ada")) ∷ ("child_ids", raw (list (cons (int (pos 4)) nil))) ∷ []

abbrev read_partner : Instance String String
read_partner = record {
  model = partner;
  state = (row, "name" ∷ "child_ids" ∷ []);
  user_set = some [];
}

read_partner-validated : validate_typed pydantic calendar partner row ≡ ok read_partner
unfolding validate_typed model_validate odoo_wire_transforms wire_value text_cell annotation_is
    annotation_mentions_ref model_post_init is_read
read_partner-validated = refl

abbrev renamed : List (String × Cell String String)
renamed = ("name", raw null) ∷ []

abbrev after : Instance String String
after = assign_all pydantic renamed read_partner

after-HasAttributes : HasAttributes after.state.0 after.state.1
unfolding set_attribute tracked
after-HasAttributes = ((raw null, refl), ((raw (list (cons (int (pos 4)) nil)), refl), tt))

read_then_write-returns_example :
    (payload : Dict String Value) × (serialize_for_write calendar after ≡ ok payload)
    × IsWritten calendar after after.state.1 [] payload
read_then_write-returns_example =
    read_then_write-returns pydantic calendar partner row read_partner renamed
      read_partner-validated refl after-HasAttributes

serialize_for_write-IsWritten_example :
    (any (is_refused after.model (user_fields after)) after.state.1 ≡ true
      → serialize_for_write calendar after ≡ err validation)
    × (any (is_refused after.model (user_fields after)) after.state.1 ≡ false
        → (payload : Dict String Value) × (serialize_for_write calendar after ≡ ok payload)
          × IsWritten calendar after after.state.1 [] payload)
serialize_for_write-IsWritten_example =
    serialize_for_write-IsWritten calendar after after-HasAttributes

-- The children are assigned.
abbrev children : Cell String String
children = raw (list nil)

abbrev assigned : Instance String String
assigned = assign_all pydantic renamed (set_attribute pydantic "child_ids" children read_partner).1

assigned-HasAttributes : HasAttributes assigned.state.0 assigned.state.1
unfolding set_attribute tracked
assigned-HasAttributes = ((raw null, refl), ((children, refl), tt))

children-assigned : (set_attribute pydantic "child_ids" children read_partner).0 ≡ ok tt
unfolding set_attribute tracked
children-assigned = refl

read_partner-built :
    model_validate pydantic calendar (some (("godoo_read", bool true) ∷ [])) partner row
    ≡ ok read_partner
unfolding model_validate odoo_wire_transforms wire_value text_cell annotation_is
    annotation_mentions_ref model_post_init is_read
read_partner-built = refl

assigned-refused_example : serialize_for_write calendar assigned ≡ err validation
assigned-refused_example =
    assigned-refused pydantic calendar (some (("godoo_read", bool true) ∷ [])) partner row
      read_partner "child_ids" children renamed pydantic-Sets read_partner-built refl
      children-assigned assigned-HasAttributes

-- The dates of Python by their texts
abbrev iso : Calendar String String
iso = record {
  parse_date = some;
  print_date = λ d. d;
  parse_datetime = some;
  print_datetime = with_t;
}

abbrev moment : Annotation
moment = optional (a_class "datetime")

abbrev morning : Value
morning = str "2026-01-05 08:00:00"

moment-plain : is_list_annotated moment ≡ false
unfolding is_list_annotated
moment-plain = refl

wire_value-sent_example : sent_value iso (wire_value iso moment morning) ≡ str "2026-01-05T08:00:00"
unfolding annotation_is
wire_value-sent_example =
    wire_value-sent iso moment morning (λ h. cc) moment-plain
      (λ text h.
        (λ d long parsed. cc, λ t split parsed. let same : text ≡ t = cc in ap with_t (sym same)))
