-- ===== src/Modules.antt =====
-- services/modules/module_manager.py: finding, installing, upgrading and uninstalling Odoo modules, with
-- bounded retries. What the outside decides besides the client's `Outside` is a record: whether the
-- text of an exception speaks of a scheduled action, and what other tasks do to the session during a
-- sleep.
pub mod Retries
pub mod Buttons
mod Tests
use godoo_py.Base.{
  ℕ, zero, suc, ℤ, String, string_eq, Bool, true, false, not, ◌&&◌, Option, none, some, List, [],
  ◌∷◌, ◌++◌, ok, err, if◌then◌else◌,
}
use godoo_py.Base.Dict.{Dict}
use godoo_py.Value.{Value, str, bool, list, tuple, nil, cons, truthy, equals, item, first_item}
use godoo_py.Faults.{Fault, other, Checked}
use godoo_py.Client.{Event, Session, Client, Outside, Rpc, ◌>>=◌, ◌>>◌, pure, raise, lift}
use godoo_py.Client.Call.{call}
use godoo_py.Client.Crud.{Paging, no_paging, search, search_read, equals_term}

-- `_is_ir_cron_error` of an exception that is raised behind the log, and the session behind a sleep
pub record Waiting : Type 0 where
  pub is_ir_cron_error : List Event → Fault → Bool
  pub session_slept : List Event → Option Session → Option Session

-- `_MODEL`
abbrev pub module_model : String
module_model = "ir.module.module"

-- `_MODULE_FIELDS`
abbrev pub module_fields : List String
module_fields =
    "id" ∷ "name" ∷ "state" ∷ "shortdesc" ∷ "summary" ∷ "description" ∷ "author" ∷ "website"
    ∷ "installed_version" ∷ "latest_version" ∷ "license" ∷ "application" ∷ "category_id" ∷ []

-- `_MAX_RETRIES`
abbrev pub max_retries : ℕ
max_retries = 3

-- `[[module_id]]`
abbrev pub press_args : Value → List Value
press_args module_id = list (cons module_id nil) ∷ []

module _ (outside : Outside) where
  -- `_find_module`, and `_fetch_module_info` and `get_module_info`, which only call it
  unfoldable pub find_module : String → Rpc Value
  find_module module_name = do
    results ←
        search_read outside module_model (some (equals_term "name" module_name ∷ []))
          (record no_paging { fields = some module_fields }) []
    if truthy results then lift (first_item results) else raise other

  unfoldable pub is_module_installed : String → Rpc Bool
  is_module_installed module_name = do
    ids ←
        search outside module_model
          (some (equals_term "name" module_name ∷ equals_term "state" "installed" ∷ [])) []
    pure (truthy ids)

  -- The filters of `list_modules`
  unfoldable pub list_domain : Option String → Option Bool → List Value
  list_domain none none = []
  list_domain (some state) none = equals_term "state" state ∷ []
  list_domain none (some application) =
      tuple (cons (str "application") (cons (str "=") (cons (bool application) nil))) ∷ []
  list_domain (some state) (some application) =
      equals_term "state" state
      ∷ tuple (cons (str "application") (cons (str "=") (cons (bool application) nil)))
      ∷ []

  unfoldable pub list_modules : Option String → Option Bool → Option ℤ → Option ℤ → Rpc Value
  list_modules state application limit offset =
      search_read outside module_model (some (list_domain state application))
        (record no_paging { fields = some module_fields; limit = limit; offset = offset }) []

  module _ (waiting : Waiting) where
    -- `asyncio.sleep`
    abbrev pub asleep : Client → Client
    asleep s = record s { session = waiting.session_slept s.log s.session }

    -- One attempt
    abbrev pub press : Value → String → Rpc Value
    press module_id method = call outside module_model method (press_args module_id) []

    -- Whether the loop goes on behind an attempt, where `left` more are allowed
    abbrev pub is_retried : ℕ → List Event → Fault → Bool
    is_retried zero log fault = false
    is_retried (suc left) log fault = waiting.is_ir_cron_error log fault

    -- The loop of `_call_with_ir_cron_retry`, over the attempts that are left
    unfoldable pub attempts : ℕ → Value → String → Rpc Value
    attempts zero module_id method s = (err other, s)
    attempts (suc left) module_id method s =
        let (r, s') = press module_id method s in
        elim r [
          | ok v ↦ (ok v, s')
          | err fault ↦ elim (is_retried left s'.log fault) [
            | true ↦ attempts left module_id method (asleep s')
            | false ↦ (err fault, s')
          ]
        ]

    -- `_call_with_ir_cron_retry`
    abbrev pub call_with_ir_cron_retry : Value → String → Rpc Value
    call_with_ir_cron_retry = attempts max_retries

    -- The button of a module, and what is known of the module afterwards
    abbrev pub press_and_fetch : String → String → Value → Rpc Value
    press_and_fetch method module_name found = do
      module_id ← lift (item "id" found)
      call_with_ir_cron_retry module_id method
      find_module module_name

    unfoldable pub install_module : String → Rpc Value
    install_module module_name = do
      found ← find_module module_name
      state ← lift (item "state" found)
      (if equals state "installed"
          then pure found
          else press_and_fetch "button_immediate_install" module_name found)

    unfoldable pub uninstall_module : String → Rpc Value
    uninstall_module module_name = do
      found ← find_module module_name
      press_and_fetch "button_immediate_uninstall" module_name found

    unfoldable pub upgrade_module : String → Rpc Value
    upgrade_module module_name = do
      found ← find_module module_name
      state ← lift (item "state" found)
      (if equals state "installed"
          then press_and_fetch "button_immediate_upgrade" module_name found
          else raise other)
