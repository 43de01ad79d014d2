-- ===== src/Safety.antt =====
-- safety/__init__.py of godoo-client: the level of a method, and which safety context applies.
use godoo_py.Base.{String, Bool, Option, List, [], ◌∷◌, string_eq, elem, if◌then◌else◌}
use godoo_py.Value.{Value}
use godoo_py.Base.Dict.{Dict}

-- `SafetyLevel`
pub data SafetyLevel : Type 0 where
  read write delete : SafetyLevel

-- `READ_METHODS`
abbrev pub read_methods : List String
read_methods =
    "search" ∷ "read" ∷ "search_read" ∷ "search_count" ∷ "fields_get" ∷ "name_get" ∷ "name_search"
    ∷ "default_get" ∷ "onchange" ∷ "load_views" ∷ "check_access_rights" ∷ "check_access_rule"
    ∷ "read_group" ∷ []

-- `DELETE_METHODS`
abbrev pub delete_methods : List String
delete_methods = "unlink" ∷ []

pub record OperationInfo : Type 0 where
  pub name : String
  pub level : SafetyLevel
  pub model : String
  pub description : String
  pub target : Option String
  pub details : Option (Dict String Value)

unfoldable pub infer_safety_level : String → SafetyLevel
infer_safety_level method =
    if elem method read_methods then read else if elem method delete_methods then delete else write

-- `resolve_safety_context`, over the module-level default
unfoldable pub resolve_safety_context : {C : Type 0} → Option C → Option C → Bool → Option C
resolve_safety_context default client_context undefined =
    if undefined then default else client_context
