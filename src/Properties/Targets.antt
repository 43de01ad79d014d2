-- ===== src/Properties/Targets.antt =====
-- The scope that a record is read under is of the model and the field that were asked for.
use mathlib.Core.Path.{subst}
use godoo_py.Base.{
  ℤ, int_eq, String, ◌≡◌, inl, inr, arith, some, Option, List, [], ◌∷◌, ok, All, Bool-cases,
  Option-cases, Result-cases,
}
use godoo_py.Base.Eq.{◌==◌}
use godoo_py.Base.Dict.{Dict, lookup, insert}
use godoo_py.Value.{Value, get, as_int, int, str, list, of_items}
use godoo_py.Faults.{Checked}
use godoo_py.Client.{Outside, Client, Rpc, ◌>>=◌, lift, pure}
use godoo_py.Client.Traces.{>>=-result}
use godoo_py.Properties.Types.{PropertyDefinition}
use godoo_py.Properties.Codec.Values.{Calendar}
use godoo_py.Properties.Codec.Records.{decode_values}
use godoo_py.Properties.Scope.Checks.{
  Row, PropertyScope, for_parent, route, check_parent, record_ids, parent_id_for,
}
use godoo_py.Properties.Scope.Calls.{
  capture_scope, discover, scope_call, load_definitions, read_rows,
}
use godoo_py.Properties.Functions.{
  PropertyRecord, Route, ReadResult, one, Snapshots, property_record, snapshot_of, read_each,
  requested_fields, read_some, read, read_result, only_record,
}

-- What holds of the result, if there is one
pub record Yields {A : Type 0} (P : A → Type 0) (m : Rpc A) : Type 0 where
  pub yields : (s : Client) (a : A) → (m s).0 ≡ ok a → P a

module _ {A : Type 0} where
  Yields-any : (m : Rpc A) → Yields (λ a. Unit {0}) m
  Yields-any m = record { yields = λ s a h. tt }

  Yields-lift : (r : Checked A) → Yields (λ a. r ≡ ok a) (lift r)
  Yields-lift r = record { yields = λ s a h. h }

  Yields-pure : (P : A → Type 0) (a : A) → P a → Yields P (pure a)
  Yields-pure P a p = record { yields = λ s b h. let same : a ≡ b = cc in subst P same p }

  module _ {B : Type 0} {P : A → Type 0} {Q : B → Type 0} where
    Yields->>= :
        (m : Rpc A) (f : A → Rpc B)
        → Yields P m
        → ((a : A) → P a → Yields Q (f a))
        → Yields Q (m >>= f)
    Yields->>= m f h k = record {
      yields = λ s b e.
          let (a, s', e1, then1) = >>=-result m f s b e in
          (k a (h.yields s a e1)).yields s' b then1;
    }

-- The scope is of this model and this field.
abbrev pub IsOf : String → String → PropertyScope → Type 0
IsOf model field scope = (scope.model ≡ model) × (scope.field ≡ field)

pub capture_scope-IsOf :
    (model field : String) (context : Option (Dict String Value)) (s : Client)
    (scope : PropertyScope)
    → (capture_scope model field context s).0 ≡ ok scope
    → IsOf model field scope
unfolding capture_scope
capture_scope-IsOf model field context s scope h = elim (Option-cases s.session) [
  | inl gone ↦ absurd (ground (arith, gone, h))
  | inr (session, held) ↦ (ground (arith, held, h), ground (arith, held, h))
]

capture_scope-Yields :
    (model field : String) (context : Option (Dict String Value))
    → Yields (IsOf model field) (capture_scope model field context)
capture_scope-Yields model field context = record {
  yields = capture_scope-IsOf model field context;
}

module _ (model field : String) where
  for_parent-IsOf :
      (scope parent : PropertyScope) (parent_id : ℤ)
      → for_parent scope parent_id ≡ ok parent
      → IsOf model field scope
      → IsOf model field parent
  unfolding for_parent
  for_parent-IsOf scope parent parent_id h k = (ground (arith, h, k), ground (arith, h, k))

  -- Every snapshot has such a scope.
  abbrev AreOf : Snapshots → Type 0
  AreOf snapshots = All (λ e. IsOf model field e.1.0) snapshots

  lookup-IsOf :
      (i : ℤ) (snapshots : Snapshots) (found : PropertyScope × List PropertyDefinition)
      → AreOf snapshots
      → lookup i snapshots ≡ some found
      → IsOf model field found.0
  lookup-IsOf i [] found h k = absurd cc
  lookup-IsOf i ((j, e) ∷ snapshots) found h k = elim (Bool-cases (i == j)) [
    | inl same ↦
        let own : e ≡ found = ground (arith, same, k) in
        subst (λ (x : PropertyScope × List PropertyDefinition). IsOf model field x.0) own h.0
    | inr other ↦ lookup-IsOf i snapshots found h.1 (ground (arith, other, k))
  ]

  insert-AreOf :
      (i : ℤ) (e : PropertyScope × List PropertyDefinition) (snapshots : Snapshots)
      → IsOf model field e.0
      → AreOf snapshots
      → AreOf (insert i e snapshots)
  insert-AreOf i e [] k h = (k, tt)
  insert-AreOf i e ((j, old) ∷ snapshots) k h = elim (Bool-cases (i == j)) [
    | inl same ↦ rw same (k, h.1)
    | inr other ↦ rw other (h.0, insert-AreOf i e snapshots k h.1)
  ]

  property_record-IsOf :
      (calendar : Calendar) (name : String) (parent : PropertyScope)
      (loaded : List PropertyDefinition) (row : Row) (r : PropertyRecord)
      → property_record calendar name parent loaded row ≡ ok r
      → IsOf model field parent
      → IsOf model field r.scope
  unfolding property_record
  property_record-IsOf calendar name parent loaded row r h k =
      elim (Result-cases (decode_values calendar loaded (get name row))) [
        | inr (e, raised) ↦ absurd (ground (arith, raised, h))
        | inl (values, decoded) ↦ elim (Option-cases (as_int (get "id" row))) [
          | inl gone ↦ absurd (ground (arith, decoded, gone, h))
          | inr (i, own) ↦ (ground (arith, decoded, own, h, k), ground (arith, decoded, own, h, k))
        ]
      ]

  module _ (outside : Outside) (calendar : Calendar) where
    snapshot_of-IsOf :
        (scope : PropertyScope) (parent_id : ℤ) (snapshots : Snapshots)
        → IsOf model field scope
        → AreOf snapshots
        → Yields
            (λ (found : Snapshots × PropertyScope × List PropertyDefinition).
              AreOf found.0 × IsOf model field found.1)
            (snapshot_of outside calendar scope parent_id snapshots)
    unfolding snapshot_of
    snapshot_of-IsOf scope parent_id snapshots k known =
        elim (Option-cases (lookup parent_id snapshots)) [
          | inr (old, e) ↦
              rw (e, snapshot_of)
                (Yields-pure _ _ (known, lookup-IsOf parent_id snapshots old known e))
          | inl new ↦
              rw (new, snapshot_of)
                (Yields->>= _ _ (Yields-lift (for_parent scope parent_id)) λ parent made.
                  Yields->>= _ _ (Yields-any (load_definitions outside parent)) λ loaded _.
                    let of = for_parent-IsOf scope parent parent_id made k in
                    Yields-pure _ _
                      (insert-AreOf parent_id (parent, loaded) snapshots of known, of))
        ]

    read_each-IsOf :
        (scope : PropertyScope) (snapshots : Snapshots) (rows : List Row)
        → IsOf model field scope
        → AreOf snapshots
        → Yields
            (λ records. All (λ r. IsOf model field r.scope) records)
            (read_each outside calendar scope snapshots rows)
    unfolding read_each
    read_each-IsOf scope snapshots [] k known = Yields-pure _ _ tt
    read_each-IsOf scope snapshots (row ∷ rows) k known =
        Yields->>= _ _ (Yields-any (lift (parent_id_for scope row))) λ parent_id _.
          Yields->>= _ _ (snapshot_of-IsOf scope parent_id snapshots k known) λ found of.
            Yields->>= _ _ (Yields-lift (property_record calendar scope.field found.1 found.2 row))
              λ first made. Yields->>= _ _ (read_each-IsOf scope found.0 rows k of.0) λ rest others.
                Yields-pure _ _ (
                  property_record-IsOf calendar scope.field found.1 found.2 row first made of.1,
                  others,
                )

    abbrev parent_attributes : Dict String Value
    parent_attributes = ("attributes", list (of_items (str "type" ∷ []))) ∷ []

    discover-IsOf :
        (context : Option (Dict String Value)) (parent_field definition_field : Option String)
        → Yields
            (IsOf model field)
            (discover outside model field context parent_field definition_field)
    unfolding discover
    discover-IsOf context parent_field definition_field =
        Yields->>= _ _ (capture_scope-Yields model field context) λ scope of.
          Yields->>= _ _ (Yields-any (scope_call outside scope model "fields_get" [] []))
            λ metadata _.
              Yields->>= _ _
                (Yields-any (lift (route field parent_field definition_field metadata)))
                λ found _.
                  Yields->>= _ _
                    (Yields-any
                      (scope_call outside scope found.2 "fields_get" [] parent_attributes))
                    λ parent _.
                      Yields->>= _ _ (Yields-any (lift (check_parent found.1 parent)))
                        λ checked _. Yields-pure _ _ of

module _ (outside : Outside) (calendar : Calendar) (model : String) where
  read_some-IsOf :
      (ids : List ℤ) (where_from : Route) (fields : Option (List String))
      → Yields
          (λ records. All (λ r. IsOf model where_from.field r.scope) records)
          (read_some outside calendar model ids where_from fields)
  unfolding read_some
  read_some-IsOf [] where_from fields = Yields-pure _ _ tt
  read_some-IsOf (rid ∷ ids) where_from fields =
      Yields->>= _ _
        (discover-IsOf model where_from.field outside calendar where_from.context
          where_from.parent_field where_from.definition_field)
        λ scope of.
          Yields->>= _ _
            (Yields-any (
              read_rows outside scope model (rid ∷ ids)
                (requested_fields fields where_from.field scope.parent_field)))
            λ rows _. read_each-IsOf model where_from.field outside calendar scope [] rows of tt

  only_record-IsOf :
      (field : String) (ids : Value) (records : List PropertyRecord) (found : ReadResult)
      (snapshot : PropertyRecord)
      → All (λ r. IsOf model field r.scope) records
      → read_result ids records ≡ ok found
      → only_record found ≡ ok snapshot
      → IsOf model field snapshot.scope
  unfolding only_record read_result
  only_record-IsOf field (int n) [] found snapshot a h k = absurd cc
  only_record-IsOf field (int n) (r ∷ records) found snapshot a h k =
      let same : one r ≡ found = ground (arith, h) in
      let own : r ≡ snapshot = ground (arith, same, k) in
      subst (λ (x : PropertyRecord). IsOf model field x.scope) own a.0
  only_record-IsOf field v records found snapshot a h k = absurd (ground (arith, h, k))

  -- The one record that is read is under a scope of the model and of the field of the route.
  pub read-IsOf :
      (ids : Value) (where_from : Route) (fields : Option (List String))
      → Yields
          (λ found.
            (snapshot : PropertyRecord)
            → only_record found ≡ ok snapshot
            → IsOf model where_from.field snapshot.scope)
          (read outside calendar model ids where_from fields)
  unfolding read
  read-IsOf ids where_from fields =
      Yields->>= _ _ (Yields-any (lift (record_ids ids))) λ target_ids _.
        Yields->>= _ _ (read_some-IsOf target_ids where_from fields) λ records of. record {
          yields = λ s found made snapshot only.
              only_record-IsOf where_from.field ids records found snapshot of made only;
        }
