-- ===== src/Properties/Scope/Reads.antt =====
-- The rows that `read_rows` of services/properties/scope.py returns.
use mathlib.Core.Path.{subst}
use godoo_py.Base.{
  ℤ, String, ◌≡◌, inl, inr, false, Option, some, List, [], ◌∷◌, map, ok, err, arith, int_eq, ◌==◌,
  eq→path, Bool-cases, Option-cases, require, ◌>>=◌, >>=-eq-ok, sym,
}
use godoo_py.Base.Dict.{Dict, lookup, insert}
use godoo_py.Value.{Value, int, get, as_int, as_dict, as_list, list, of_items}
use godoo_py.Faults.{property_value, missing, Checked}
use godoo_py.Client.{Outside, Client, lift, ◌>>=◌ as after}
use godoo_py.Properties.Scope.Checks.{
  Row, PropertyScope, omits, requested_row, index_rows, rows_of, checked_rows,
}
use godoo_py.Properties.Scope.Calls.{read_rows, scope_call, read_kwargs}

-- A row of this ID, with all fields that were asked for
abbrev pub IsRow : Option (List String) → ℤ → Row → Type 0
IsRow fields rid row = (get "id" row ≡ int rid) × (omits fields row ≡ false)

abbrev IsIndex : Option (List String) → Dict ℤ Row → Type 0
IsIndex fields [] = Unit
IsIndex fields ((rid, row) ∷ indexed) = IsRow fields rid row × IsIndex fields indexed

as_int_lem : (v : Value) (n : ℤ) → as_int v ≡ some n → v ≡ int n
as_int_lem (int m) n h = cc h
as_int_lem Value.null n h = cc
as_int_lem (Value.bool b) n h = cc
as_int_lem (Value.float x) n h = cc
as_int_lem (Value.str x) n h = cc
as_int_lem (Value.list x) n h = cc
as_int_lem (Value.tuple x) n h = cc
as_int_lem (Value.dict x) n h = cc

requested_row-IsRow :
    (ids : List ℤ) (fields : Option (List String)) (indexed : Dict ℤ Row) (value : Value) (rid : ℤ)
    (row : Row)
    → requested_row ids fields indexed value ≡ ok (rid, row)
    → IsRow fields rid row
unfolding requested_row
requested_row-IsRow ids fields indexed value rid row h = elim (Option-cases (as_dict value)) [
  | inl gone ↦ ground (arith, gone, h)
  | inr (r, a) ↦ elim (Option-cases (as_int (get "id" r))) [
    | inl gone ↦ ground (arith, a, gone, h)
    | inr (n, b) ↦ (ground (arith, a, b, h, as_int_lem (get "id" r) n b), ground (arith, a, b, h))
  ]
]

insert-IsIndex :
    (fields : Option (List String)) (rid : ℤ) (row : Row) (indexed : Dict ℤ Row)
    → IsRow fields rid row
    → IsIndex fields indexed
    → IsIndex fields (insert rid row indexed)
insert-IsIndex fields rid row [] r i = (r, tt)
insert-IsIndex fields rid row ((j, old) ∷ indexed) r (o, i) = elim (Bool-cases (rid == j)) [
  | inl same ↦ rw same (rw (sym (eq→path rid j same)) r, i)
  | inr ne ↦ rw ne (o, insert-IsIndex fields rid row indexed r i)
]

index_rows-IsIndex :
    (ids : List ℤ) (fields : Option (List String)) (indexed done : Dict ℤ Row) (values : List Value)
    → IsIndex fields indexed
    → index_rows ids fields indexed values ≡ ok done
    → IsIndex fields done
unfolding index_rows
index_rows-IsIndex ids fields indexed done [] i h =
    let same : indexed ≡ done = ground arith in subst (IsIndex fields) same i
index_rows-IsIndex ids fields indexed done (value ∷ rest) i h =
    let ((rid, row), a, b) =
      >>=-eq-ok (requested_row ids fields indexed value)
        (λ (rid, row). index_rows ids fields (insert rid row indexed) rest) h in
    index_rows-IsIndex ids fields (insert rid row indexed) done rest
      (insert-IsIndex fields rid row indexed
        (requested_row-IsRow ids fields indexed value rid row a) i)
      b

lookup-IsRow :
    (fields : Option (List String)) (rid : ℤ) (row : Row) (indexed : Dict ℤ Row)
    → IsIndex fields indexed
    → lookup rid indexed ≡ some row
    → IsRow fields rid row
lookup-IsRow fields rid row [] i h = cc
lookup-IsRow fields rid row ((j, found) ∷ indexed) (o, i) h = elim (Bool-cases (rid == j)) [
  | inl same ↦
      let same_id : rid ≡ j = eq→path rid j same in
      let same_row : found ≡ row = ground arith in
      subst (λ (r : Row). IsRow fields rid r) same_row
        (subst (λ (n : ℤ). IsRow fields n found) (sym same_id) o)
  | inr ne ↦ lookup-IsRow fields rid row indexed i (ground arith)
]

-- One row for each ID, in the order of the IDs.
abbrev pub AreRows : Option (List String) → List ℤ → List Row → Type 0
AreRows fields [] [] = Unit
AreRows fields (rid ∷ ids) (row ∷ rows) = IsRow fields rid row × AreRows fields ids rows
AreRows fields _ _ = ⊥

rows_of-AreRows :
    (fields : Option (List String)) (indexed : Dict ℤ Row) (ids : List ℤ) (rows : List Row)
    → IsIndex fields indexed
    → rows_of indexed ids ≡ ok rows
    → AreRows fields ids rows
unfolding rows_of
rows_of-AreRows fields indexed [] rows i h =
    let same : [] ≡ rows = ground arith in subst (AreRows fields []) same tt
rows_of-AreRows fields indexed (rid ∷ ids) rows i h =
    let (row, a, b) =
      >>=-eq-ok (require (lookup rid indexed) missing)
        (λ row. rows_of indexed ids >>= λ rest. ok (row ∷ rest)) h in
    let (rest, c, d) = >>=-eq-ok (rows_of indexed ids) (λ rest. ok (row ∷ rest)) b in
    let same : row ∷ rest ≡ rows = ground arith in
    subst (AreRows fields (rid ∷ ids)) same (
      lookup-IsRow fields rid row indexed i (ground arith),
      rows_of-AreRows fields indexed ids rest i c,
    )

checked_rows-AreRows :
    (ids : List ℤ) (fields : Option (List String)) (answer : Value) (rows : List Row)
    → checked_rows ids fields answer ≡ ok rows
    → AreRows fields ids rows
unfolding checked_rows
checked_rows-AreRows ids fields answer rows h =
    let (listed, _, a) =
      >>=-eq-ok (require (as_list answer) property_value)
        (λ listed. index_rows ids fields [] listed >>= λ indexed. rows_of indexed ids) h in
    let (indexed, b, c) =
      >>=-eq-ok (index_rows ids fields [] listed) (λ indexed. rows_of indexed ids) a in
    rows_of-AreRows fields indexed ids rows (index_rows-IsIndex ids fields [] indexed listed tt b) c

answered :
    (r : Checked Value × Client) (ids : List ℤ) (fields : Option (List String)) (rows : List Row)
    → (after (λ _. r) (λ answer. lift (checked_rows ids fields answer)) r.1).0 ≡ ok rows
    → AreRows fields ids rows
answered (ok answer, s) ids fields rows h = checked_rows-AreRows ids fields answer rows h
answered (err e, s) ids fields rows h = cc

-- Whatever the server answers and whatever other tasks do meanwhile: if `read_rows` returns, it
-- returns one row for each ID that was asked for, in the order of the IDs, each with its own ID and
-- with all the fields that were asked for.
pub read_rows-AreRows :
    (outside : Outside) (scope : PropertyScope) (model : String) (ids : List ℤ)
    (fields : Option (List String)) (s : Client) (rows : List Row)
    → (read_rows outside scope model ids fields s).0 ≡ ok rows
    → AreRows fields ids rows
unfolding read_rows
read_rows-AreRows outside scope model [] fields s rows h =
    let same : [] ≡ rows = ground arith in subst (AreRows fields []) same tt
read_rows-AreRows outside scope model (rid ∷ ids) fields s rows h =
    answered
      (scope_call outside scope model "read" (list (of_items (map int (rid ∷ ids))) ∷ [])
        (read_kwargs fields) s)
      (rid ∷ ids) fields rows h
