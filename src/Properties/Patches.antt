-- ===== src/Properties/Patches.antt =====
-- What the functions of services/properties send: reads first, and one validated write at most.
use godoo_py.Base.{ℤ, int_eq, String, inl, inr, Option, List, [], ◌∷◌, Option-cases}
use godoo_py.Base.Dict.{Dict, lookup}
use godoo_py.Value.{Value}
use godoo_py.Client.{Outside}
use godoo_py.Client.Traces.{Adds, IsRead, Adds-pure, Adds-lift, Adds->>=, Adds->>}
use godoo_py.Properties.Codec.Values.{Calendar}
use godoo_py.Properties.Scope.Checks.{Row, PropertyScope}
use godoo_py.Properties.Scope.Preflight.{
  capture_scope-IsRead, discover-IsRead, read_rows-IsRead, load_definitions-IsRead,
}
use godoo_py.Properties.Functions.{
  Route, Snapshots, snapshot_of, read_each, read_some, read, definitions, preflight_ids,
  preflight_batch,
}

ruleset reads = (
  Adds->>=, Adds->>, Adds-lift, Adds-pure, discover-IsRead, capture_scope-IsRead, read_rows-IsRead,
  load_definitions-IsRead,
)

module _ (outside : Outside) (calendar : Calendar) where
  pub definitions-IsRead :
      (model : String) (where_from : Route) (parent_id : ℤ)
      → Adds IsRead (definitions outside calendar model where_from parent_id)
  unfolding definitions
  definitions-IsRead model where_from parent_id = search reads depth 9

  snapshot_of-IsRead :
      (scope : PropertyScope) (parent_id : ℤ) (snapshots : Snapshots)
      → Adds IsRead (snapshot_of outside calendar scope parent_id snapshots)
  unfolding snapshot_of
  snapshot_of-IsRead scope parent_id snapshots = elim (Option-cases (lookup parent_id snapshots)) [
    | inl new ↦ rw (new, snapshot_of) (search reads depth 9)
    | inr (old, e) ↦ rw (e, snapshot_of) (search reads)
  ]

  read_each-IsRead :
      (scope : PropertyScope) (snapshots : Snapshots) (rows : List Row)
      → Adds IsRead (read_each outside calendar scope snapshots rows)
  unfolding read_each
  read_each-IsRead scope snapshots [] = search reads
  read_each-IsRead scope snapshots (row ∷ rows) =
      let others : (known : Snapshots) → Adds IsRead (read_each outside calendar scope known rows) =
        λ known. read_each-IsRead scope known rows in
      search (reads, snapshot_of-IsRead, others) depth 9

  read_some-IsRead :
      (model : String) (ids : List ℤ) (where_from : Route) (fields : Option (List String))
      → Adds IsRead (read_some outside calendar model ids where_from fields)
  unfolding read_some
  read_some-IsRead model [] where_from fields = search reads
  read_some-IsRead model (rid ∷ ids) where_from fields = search (reads, read_each-IsRead) depth 9

  -- Reading records with their properties asks nothing and sends requests of the READ level alone.
  pub read-IsRead :
      (model : String) (ids : Value) (where_from : Route) (fields : Option (List String))
      → Adds IsRead (read outside calendar model ids where_from fields)
  unfolding read
  read-IsRead model ids where_from fields = search (reads, read_some-IsRead) depth 9

  preflight_ids-IsRead :
      (model : String) (ids : List ℤ) (field : String) (updates : Dict String Value)
      → Adds IsRead (preflight_ids outside calendar model ids field updates)
  unfolding preflight_ids
  preflight_ids-IsRead model [] field updates = search reads
  preflight_ids-IsRead model (rid ∷ rest) field updates = search reads depth 9

  -- Up to its dispatch a legacy batch update asks nothing and sends requests of the READ level alone.
  preflight_batch-IsRead :
      (model : String) (ids : Value) (field : String) (updates : Dict String Value)
      → Adds IsRead (preflight_batch outside calendar model ids field updates)
  unfolding preflight_batch
  preflight_batch-IsRead model ids field updates = search (reads, preflight_ids-IsRead) depth 9
