-- ===== src/Introspection.antt =====
-- packages/godoo-introspection/src/godoo/introspection: the schemas of Odoo's models. What Python's
-- `int` and `str.strip` do to a value is an argument.
pub mod Columns
pub mod Rows
pub mod Fetch
pub mod Cached
pub mod Partial
pub mod Projected
mod Tests
use godoo_py.Base.{ℤ, String, Bool, Option, List}
use godoo_py.Base.Dict.{Dict}
use godoo_py.Value.{Value, Printer}
use godoo_py.Faults.{Checked}

-- `int(value)` with its exceptions, `str(value)` of what is no text, and `text.strip()`
pub record Builtins : Type 0 where
  pub to_int : Value → Checked ℤ
  pub printer : Printer
  pub strip : String → String

-- `FieldSchema`
pub record FieldSchema : Type 0 where
  pub name : String
  pub ttype : String
  pub field_description : String
  pub relation : Option String
  pub relation_field : Option String
  pub required : Bool
  pub readonly : Bool
  pub store : Bool
  pub index : Bool
  pub copy : Bool
  pub translate : Bool
  pub help : String
  pub compute : Option String
  pub depends : List String
  pub modules : List String
  pub on_delete : Option String
  pub size : Option ℤ
  pub digits : Option (ℤ × ℤ)
  pub selection : List (String × String)

-- `ModelSchema`
pub record ModelSchema : Type 0 where
  pub name : String
  pub display_name : String
  pub transient : Bool
  pub fields : Dict String FieldSchema
