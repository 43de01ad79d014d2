-- ===== src/Config/Tests.antt =====
-- Configurations from concrete environments.
use godoo_py.Base.{string_eq, ◌≡◌, refl, none, some, [], ◌∷◌, ◌==◌, err, if◌then◌else◌}
use godoo_py.Config.{Environment, or_else, if_missing, config_or_missing, config_from_env}
use godoo_py.Config.Found.{IsConfig, config_from_env-IsConfig}

-- The first variable of the user is empty, and no password is set.
abbrev environment : Environment
environment name =
    if name == "ODOO_URL"
    then some "https://example.com"
    else if name == "ODOO_DATABASE"
    then some "prod"
    else if name == "ODOO_USER"
    then some ""
    else if name == "ODOO_USERNAME"
    then some "admin"
    else none

password_missing : config_from_env environment "ODOO" ≡ err ("ODOO_PASSWORD" ∷ [])
unfolding config_from_env config_or_missing if_missing or_else
password_missing = refl

config_from_env-IsConfig_example : IsConfig environment "ODOO" (err ("ODOO_PASSWORD" ∷ []))
unfolding config_from_env config_or_missing if_missing or_else
config_from_env-IsConfig_example = config_from_env-IsConfig environment "ODOO"
