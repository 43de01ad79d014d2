-- ===== src/Client/Crud/Safe.antt =====
-- The CRUD helpers under the safety guard.
use godoo_py.Faults.{missing, Checked}
use godoo_py.Base.{
  Bool, false, if◌then◌else◌, String, ◌≡◌, ◌≢◌, refl, Option, some, List, [], ◌∷◌, ok, true,
  Option-cases, inl, inr,
}
use godoo_py.Base.Dict.{Dict}
use godoo_py.Value.{Value, truthy}
use godoo_py.Safety.{SafetyLevel, infer_safety_level}
use godoo_py.Client.State.{SafetyContext, Client, Outside, Rpc, lift, raise}
use godoo_py.Client.Call.{operation, effective_safety}
use godoo_py.Client.Guarded.{requests, sent_was_confirmed}
use godoo_py.Client.Traces.{Adds, IsRead, Adds-lift, Adds-raise, Adds->>=}
use godoo_py.Client.Reads.{call-IsRead}
use godoo_py.Client.Crud.{
  Ids, Paging, CreateValues, single, batch, split_dot, first_res_id, search, read, search_read,
  search_count, fields_get, ref, create, write, unlink,
}

module _ (outside : Outside) where
  search_read-IsRead :
      (model : String) (domain : Option (List Value)) (paging : Paging) (kwargs : Dict String Value)
      → Adds IsRead (search_read outside model domain paging kwargs)
  unfolding search_read infer_safety_level
  search_read-IsRead model domain paging kwargs = call-IsRead outside model "search_read" _ refl _

  found-IsRead :
      (is_found : Bool) (r : Checked Value)
      → Adds IsRead (if is_found then lift r else raise missing)
  found-IsRead true r = Adds-lift IsRead r
  found-IsRead false r = Adds-raise Value IsRead missing

  ref-IsRead : (xml_id : String) → Adds IsRead (ref outside xml_id)
  unfolding ref
  ref-IsRead xml_id = elim (Option-cases (split_dot xml_id)) [
    | inl malformed ↦ rw (malformed, ref) (Adds-raise Value IsRead _)
    | inr ((module_name, name), split) ↦
        rw (split, ref)
          (Adds->>= IsRead _ _ (search_read-IsRead _ _ _ _)
            (λ records. found-IsRead (truthy records) (first_res_id records)))
  ]

  -- The lookups `search`, `read`, `search_read`, `search_count`, `fields_get` and `ref` ask nothing
  -- and send requests of the READ level alone.
  lookups-IsRead :
      (model xml_id : String) (domain : Option (List Value)) (ids : Ids)
      (fields attributes : Option (List String)) (paging : Paging) (kwargs : Dict String Value)
      → Adds IsRead (search outside model domain kwargs)
        × Adds IsRead (read outside model ids fields kwargs)
        × Adds IsRead (search_read outside model domain paging kwargs)
        × Adds IsRead (search_count outside model domain kwargs)
        × Adds IsRead (fields_get outside model attributes)
        × Adds IsRead (ref outside xml_id)
  unfolding search read search_count fields_get infer_safety_level
  lookups-IsRead model xml_id domain ids fields attributes paging kwargs = (
    call-IsRead outside model "search" _ refl _,
    call-IsRead outside model "read" _ refl _,
    search_read-IsRead model domain paging kwargs,
    call-IsRead outside model "search_count" _ refl _,
    call-IsRead outside model "fields_get" _ refl _,
    ref-IsRead xml_id,
  )

-- What the helpers that change records do
pub data Change : Type 0 where
  creating : CreateValues → Change
  writing : Ids → Dict String Value → Change
  unlinking : Ids → Change

-- The Odoo method of a change
abbrev pub method_of : Change → String
method_of (creating values) = "create"
method_of (writing ids values) = "write"
method_of (unlinking ids) = "unlink"

abbrev pub run_change : Outside → String → Change → Dict String Value → Rpc Value
run_change outside model (creating values) kwargs = create outside model values kwargs
run_change outside model (writing ids values) kwargs = write outside model ids values kwargs
run_change outside model (unlinking ids) kwargs = unlink outside model ids kwargs

method_of-level : (c : Change) → infer_safety_level (method_of c) ≢ SafetyLevel.read
unfolding infer_safety_level
method_of-level (creating values) = λ e. cc
method_of-level (writing ids values) = λ e. cc
method_of-level (unlinking ids) = λ e. cc

module _ (outside : Outside) (model : String) (kwargs : Dict String Value) where
  -- Where a safety context applies, `create`, `write` and `unlink` reach the server only if `confirm`
  -- allowed this method of this model.
  change_was_confirmed :
      (c : Change) (s : Client) (ctx : SafetyContext)
      → effective_safety s ≡ some ctx
      → requests (run_change outside model c kwargs s).1.log ≢ requests s.log
      → ctx.confirm s.log (operation model (method_of c)) ≡ ok true
  unfolding create write unlink
  change_was_confirmed (creating (single values)) s ctx e out =
      sent_was_confirmed outside model "create" _ kwargs s ctx
        (method_of-level (creating (single values))) e out
  change_was_confirmed (creating (batch [])) s ctx e out = absurd (out refl)
  change_was_confirmed (creating (batch (row ∷ rows))) s ctx e out =
      sent_was_confirmed outside model "create" _ kwargs s ctx
        (method_of-level (creating (batch rows))) e out
  change_was_confirmed (writing ids values) s ctx e out =
      sent_was_confirmed outside model "write" _ kwargs s ctx (method_of-level (writing ids values))
        e out
  change_was_confirmed (unlinking ids) s ctx e out =
      sent_was_confirmed outside model "unlink" _ kwargs s ctx (method_of-level (unlinking ids)) e
        out
