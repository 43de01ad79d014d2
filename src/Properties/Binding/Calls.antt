-- ===== src/Properties/Binding/Calls.antt =====
-- `refresh`, `read`, `create` and the preflight of the patches of `PropertyBinding`.
use godoo_py.Base.{
  ℤ, int_eq, String, string_eq, Bool, true, false, not, ◌||◌, Option, some, List, [], ◌∷◌,
  is_positive, is_empty, if◌then◌else◌, map, check,
}
use godoo_py.Base.Dict.{Dict, keys, values}
use godoo_py.Value.{Value, int, list, of_items}
use godoo_py.Faults.{property_value}
use godoo_py.Client.{Outside, Rpc, ◌>>=◌, ◌>>◌, pure, lift}
use godoo_py.Properties.Codec.Values.{Calendar}
use godoo_py.Properties.Scope.Checks.{record_ids}
use godoo_py.Properties.Scope.Calls.{scope_call, read_rows, load_definitions}
use godoo_py.Properties.Binding.Declare.{PropertyBinding}
use godoo_py.Properties.Binding.Aliases.{check_aliases}
use godoo_py.Properties.Binding.Rows.{
  BoundResult, bound_result, bound_fields, bound_records, create_rows, with_parents, encode_rows,
  normalize, bound_payloads, patch_mappings, has_changes, create_args,
}

module _ (outside : Outside) where
  -- `PropertyBinding.refresh`: the binding with the new definitions, if no alias has drifted.
  unfoldable pub refresh : PropertyBinding → Rpc PropertyBinding
  refresh binding = do
    candidate ← load_definitions outside binding.scope
    lift (check_aliases candidate binding.aliases)
    pure (record binding { definitions = candidate })

  -- `if refresh: await self.refresh()`
  unfoldable pub refreshed : Bool → PropertyBinding → Rpc PropertyBinding
  refreshed true binding = refresh binding
  refreshed false binding = pure binding

module _ (outside : Outside) (calendar : Calendar) where
  -- `PropertyBinding.read`
  unfoldable pub bound_read : PropertyBinding → Value → Option (List String) → Rpc BoundResult
  bound_read binding ids fields = do
    target_ids ← lift (record_ids ids)
    rows ←
        read_rows outside binding.scope binding.scope.model target_ids
          (bound_fields fields binding.scope)
    records ← lift (bound_records calendar binding rows)
    lift (bound_result ids records)

  -- `PropertyBinding.create`
  unfoldable pub create : PropertyBinding → Value → Bool → Rpc Value
  create binding given refreshing = do
    rows ← lift (create_rows given)
    payloads ← lift (with_parents binding.scope rows)
    current ← refreshed outside refreshing binding
    encoded ← lift (encode_rows calendar current payloads)
    args ← lift (create_args given encoded)
    scope_call outside binding.scope binding.scope.model "create" args []

  -- `patch_each`, for records that have changes, up to its dispatch
  unfoldable pub preflight_patches :
      PropertyBinding
      → List ℤ
      → Dict ℤ (Dict String Value)
      → Bool
      → Rpc (Dict ℤ (Dict String Value))
  preflight_patches binding ids patches refreshing = do
    current ← refreshed outside refreshing binding
    normalized ← lift (normalize calendar current patches)
    rows ←
        read_rows outside binding.scope binding.scope.model ids
          (some (binding.scope.parent_field ∷ binding.scope.field ∷ []))
    lift (bound_payloads calendar current normalized rows)

  -- `patch_each`, up to its dispatch
  unfoldable pub patch_payloads :
      PropertyBinding → Dict ℤ Value → ℤ → Bool → Rpc (Dict ℤ (Dict String Value))
  patch_payloads binding changes concurrency refreshing = do
    lift (check (is_positive concurrency) property_value)
    ids ← lift (record_ids (list (of_items (map int (keys changes)))))
    patches ← lift (patch_mappings changes)
    if is_empty ids || not (has_changes (values patches))
        then pure []
        else preflight_patches binding ids patches refreshing
