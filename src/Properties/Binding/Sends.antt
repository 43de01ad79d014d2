-- ===== src/Properties/Binding/Sends.antt =====
-- What the methods of a binding send, and for which records a patch makes payloads.
use mathlib.Core.Path.{subst}
use mathlib.Core.List.{Memᴰ}
use godoo_py.Base.{
  ℤ, int_eq, String, string_eq, ◌≡◌, refl, inl, inr, Bool, true, false, not, Option, none, some,
  List, [], ◌∷◌, is_empty, if◌then◌else◌, ok, arith, Bool-cases, Option-cases, Result-cases, All,
  select,
}
use godoo_py.Base.Dict.{Dict, lookup, keys}
use godoo_py.Value.{Value, int, get}
use godoo_py.Client.{Outside, Rpc}
use godoo_py.Properties.Scope.Checks.{Row}
use godoo_py.Properties.Scope.Reads.{AreRows}
use godoo_py.Client.Traces.{Adds, IsRead, Adds-lift, Adds-pure, Adds->>=, Adds->>}
use godoo_py.Properties.Codec.Values.{Calendar}
use godoo_py.Properties.Scope.Preflight.{read_rows-IsRead}
use godoo_py.Properties.Binding.Declare.{PropertyBinding}
use godoo_py.Properties.Binding.Rows.{bound_payload, bound_payloads}
use godoo_py.Properties.Binding.Calls.{refreshed, bound_read, preflight_patches, patch_payloads}
use godoo_py.Properties.Binding.Drift.{refresh-IsRead}

ruleset reads = (Adds->>=, Adds->>, Adds-lift, Adds-pure, read_rows-IsRead)

refreshed-IsRead :
    (outside : Outside) (refreshing : Bool) (binding : PropertyBinding)
    → Adds IsRead (refreshed outside refreshing binding)
unfolding refreshed
refreshed-IsRead outside true binding = refresh-IsRead outside binding
refreshed-IsRead outside false binding = Adds-pure IsRead binding

module _ (outside : Outside) (calendar : Calendar) where
  pub bound_read-IsRead :
      (binding : PropertyBinding) (ids : Value) (fields : Option (List String))
      → Adds IsRead (bound_read outside calendar binding ids fields)
  unfolding bound_read
  bound_read-IsRead binding ids fields = search reads depth 9

  preflight_patches-IsRead :
      (binding : PropertyBinding) (ids : List ℤ) (patches : Dict ℤ (Dict String Value))
      (refreshing : Bool)
      → Adds IsRead (preflight_patches outside calendar binding ids patches refreshing)
  unfolding preflight_patches
  preflight_patches-IsRead binding ids patches refreshing = search (reads, refreshed-IsRead) depth 9

  either-IsRead :
      (b : Bool) (m n : Rpc (Dict ℤ (Dict String Value)))
      → Adds IsRead m
      → Adds IsRead n
      → Adds IsRead (if b then m else n)
  either-IsRead true m n h k = h
  either-IsRead false m n h k = k

  -- Up to its dispatch a patch of many records, with or without a refresh, asks nothing and sends
  -- requests of the READ level alone.
  patch_payloads-IsRead :
      (binding : PropertyBinding) (changes : Dict ℤ Value) (concurrency : ℤ) (refreshing : Bool)
      → Adds IsRead (patch_payloads outside calendar binding changes concurrency refreshing)
  unfolding patch_payloads
  patch_payloads-IsRead binding changes concurrency refreshing =
      search (reads, either-IsRead, preflight_patches-IsRead) depth 9

-- The patch of this record changes something.
abbrev pub is_changed : Dict ℤ (Dict String Value) → ℤ → Bool
is_changed normalized rid = elim (lookup rid normalized) [
  | none ↦ false
  | some changes ↦ not (is_empty changes)
]

-- The payload is made of the changes and of the row of this record among the rows.
abbrev pub IsPayload :
    Calendar
    → PropertyBinding
    → Dict ℤ (Dict String Value)
    → List Row
    → ℤ × Dict String Value
    → Type 0
IsPayload calendar binding normalized rows (rid, payload) =
    (row : Row) × (changes : Dict String Value) × Memᴰ row rows
    × (get "id" row ≡ int rid)
    × (lookup rid normalized ≡ some changes)
    × (bound_payload calendar binding changes row ≡ ok payload)

module _ (calendar : Calendar) (binding : PropertyBinding)
    (normalized : Dict ℤ (Dict String Value)) where
  weaken :
      (row : Row) (rows : List Row) (payloads : Dict ℤ (Dict String Value))
      → All (IsPayload calendar binding normalized rows) payloads
      → All (IsPayload calendar binding normalized (row ∷ rows)) payloads
  weaken row rows [] h = tt
  weaken row rows (p ∷ payloads) ((r, changes, at, own, given, made), h) =
      ((r, changes, Memᴰ.tail at, own, given, made), weaken row rows payloads h)

  pub bound_payloads-changed :
      (fields : Option (List String)) (ids : List ℤ) (rows : List Row)
      (payloads : Dict ℤ (Dict String Value))
      → AreRows fields ids rows
      → bound_payloads calendar binding normalized rows ≡ ok payloads
      → (keys payloads ≡ select (is_changed normalized) ids)
        × All (IsPayload calendar binding normalized rows) payloads
  unfolding bound_payloads
  bound_payloads-changed fields [] [] payloads a h =
      let same : [] ≡ payloads = ground arith in
      subst
        (λ (p : Dict ℤ (Dict String Value)).
          (keys p ≡ []) × All (IsPayload calendar binding normalized []) p)
        same (refl, tt)
  bound_payloads-changed fields [] (row ∷ rows) payloads a h = absurd a
  bound_payloads-changed fields (rid ∷ ids) [] payloads a h = absurd a
  bound_payloads-changed fields (rid ∷ ids) (row ∷ rows) payloads ((own, _), a) h =
      elim (Option-cases (lookup rid normalized)) [
        | inl gone ↦ absurd (ground (arith, own, gone, h))
        | inr (changes, given) ↦ elim (Result-cases (bound_payload calendar binding changes row)) [
          | inr (e, raised) ↦ absurd (ground (arith, own, given, raised, h))
          | inl (payload, made) ↦
              elim (Result-cases (bound_payloads calendar binding normalized rows)) [
                | inr (e, raised) ↦ absurd (ground (arith, own, given, made, raised, h))
                | inl (rest, others) ↦
                    let (same_keys, valid) = bound_payloads-changed fields ids rows rest a others in
                    elim (Bool-cases (is_empty changes)) [
                      | inl unchanged ↦
                          let same : rest ≡ payloads =
                            ground (arith, own, given, made, others, unchanged, h) in
                          rw (← same) (
                            ground (arith, given, unchanged, same_keys),
                            weaken row rows rest valid,
                          )
                      | inr changed ↦
                          let same : (rid, payload) ∷ rest ≡ payloads =
                            ground (arith, own, given, made, others, changed, h) in
                          rw (← same) (
                            ground (arith, given, changed, same_keys),
                            (
                              (row, changes, Memᴰ.head refl, own, given, made),
                              weaken row rows rest valid,
                            ),
                          )
                    ]
              ]
        ]
      ]
