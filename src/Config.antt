-- ===== src/Config.antt =====
-- `config_from_env` of config.py. The environment is an argument; of the exception only the names that
-- its message lists are kept.
pub mod Found
mod Tests
use Prim.Native.String.{◌++◌}
use mathlib.Core.List.{◌++◌ as append}
use godoo_py.Base.{
  String, string_eq, Bool, true, false, Option, none, some, List, [], ◌∷◌, ◌==◌, if◌then◌else◌,
  Result, ok, err,
}

-- `os.environ.get`
abbrev pub Environment : Type 0
Environment = String → Option String

-- The fields of `OdooClientConfig` that are read from the environment
pub record Settings : Type 0 where
  pub url : String
  pub database : String
  pub username : String
  pub password : String

-- `a or b`
unfoldable pub or_else : Option String → Option String → Option String
or_else none other = other
or_else (some s) other = if s == "" then other else some s

-- `if not value: missing.append(label)`
unfoldable pub if_missing : Option String → String → List String
if_missing none label = label ∷ []
if_missing (some s) label = if s == "" then label ∷ [] else []

-- The value, if nothing is missing
abbrev pub text_of : Option String → String
text_of none = ""
text_of (some s) = s

-- The end of `config_from_env`
unfoldable pub config_or_missing : List String → Settings → Result (List String) Settings
config_or_missing [] settings = ok settings
config_or_missing (label ∷ labels) settings = err (label ∷ labels)

unfoldable pub config_from_env : Environment → String → Result (List String) Settings
config_from_env env prefix =
    let url = env (prefix ++ "_URL") in
    let database = or_else (env (prefix ++ "_DB")) (env (prefix ++ "_DATABASE")) in
    let username = or_else (env (prefix ++ "_USER")) (env (prefix ++ "_USERNAME")) in
    let password = env (prefix ++ "_PASSWORD") in
    config_or_missing
      (append (if_missing url (prefix ++ "_URL")) (
        append (if_missing database (prefix ++ ("_DB (or " ++ (prefix ++ "_DATABASE)")))) (
          append (if_missing username (prefix ++ ("_USER (or " ++ (prefix ++ "_USERNAME)"))))
            (if_missing password (prefix ++ "_PASSWORD")))))
      (record {
        url = text_of url;
        database = text_of database;
        username = text_of username;
        password = text_of password;
      })
