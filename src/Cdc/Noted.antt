-- ===== src/Cdc/Noted.antt =====
-- Names that become known in `ensure_fields_cached`.
use godoo_py.Base.{
  String, string_eq, ◌≡◌, refl, Bool, true, false, ◌&&◌, ◌||◌, ◌⊎◌, not, none, List, [], ◌∷◌, elem,
  ◌==◌, arith, ok, inl, inr, Bool-cases, Option-cases, Result-cases,
}
use godoo_py.Base.Dict.{Dict, lookup, insert, contains, contains-insert, contains-lookup}
use godoo_py.Value.{Value, iterate}
use godoo_py.Cdc.Cache.{
  FieldMeta, FieldCache, cache_key, get_cached, set_cached, char_meta, row_meta, split_names,
  note_rows, fill_missing, note_answer,
}

pub lookup-contains-none :
    (k : String) (d : Dict String FieldMeta) → lookup k d ≡ none → contains k d ≡ false
lookup-contains-none k [] h = refl
lookup-contains-none k ((j, m) ∷ d) h = ground (arith, lookup-contains-none k d)

-- The field has metadata in the result and in the cache.
abbrev pub has_meta : String → String → Dict String FieldMeta → FieldCache → Bool
has_meta model fn result cache = contains fn result && contains (cache_key model fn) cache

module _ (model fn : String) where
  insert-has_meta :
      (name : String) (meta : FieldMeta) (result : Dict String FieldMeta) (cache : FieldCache)
      → (has_meta model fn result cache ≡ true) ⊎ (fn ≡ name)
      → has_meta model fn (insert name meta result) (insert (cache_key model name) meta cache)
        ≡ true
  insert-has_meta name meta result cache (inl h) = ground (
    arith,
    contains-insert fn name meta result,
    contains-insert (cache_key model fn) (cache_key model name) meta cache,
  )
  insert-has_meta name meta result cache (inr e) = rw e (
      ground (
        arith,
        contains-insert name name meta result,
        string_eq.beq_iff name name,
        contains-insert (cache_key model name) (cache_key model name) meta cache,
        string_eq.beq_iff (cache_key model name) (cache_key model name),
      ))

  pub split_names-has_meta :
      (cache : FieldCache) (result : Dict String FieldMeta) (names : List String)
      → (has_meta model fn result cache || elem fn names) ≡ true
      → let parts = split_names model cache result names in
        (has_meta model fn parts.0 cache || elem fn parts.1) ≡ true
  unfolding split_names get_cached
  split_names-has_meta cache result [] h = h
  split_names-has_meta cache result (x ∷ names) h = elim (Option-cases (get_cached model x cache)) [
    | inl new ↦
        let rest : (has_meta model fn result cache || elem fn names) ≡ true
            → (has_meta model fn (split_names model cache result names).0 cache
                || elem fn (split_names model cache result names).1)
              ≡ true =
          split_names-has_meta cache result names in
        ground (arith, rest)
    | inr (meta, old) ↦
        rw (old, split_names)
          (split_names-has_meta cache (insert x meta result) names (
            ground (
              arith,
              contains-insert fn x meta result,
              string_eq.beq_iff fn x,
              contains-lookup (cache_key model x) meta cache,
            )))
  ]

  noted :
      (meta : FieldMeta) (result : Dict String FieldMeta) (cache : FieldCache)
      (found names : List String)
      → (has_meta model fn result cache ≡ true) ⊎ (elem fn found ≡ false) × (elem fn names ≡ true)
      → (has_meta model fn
            (insert meta.name meta result)
            (insert (cache_key model meta.name) meta cache)
          ≡ true)
        ⊎ (elem fn (meta.name ∷ found) ≡ false) × (elem fn names ≡ true)
  noted meta result cache found names (inl has) =
      inl (insert-has_meta meta.name meta result cache (inl has))
  noted meta result cache found names (inr (absent, named)) = elim (Bool-cases (fn == meta.name)) [
    | inl e ↦
        let same : fn ≡ meta.name = ground (arith, string_eq.beq_iff fn meta.name) in
        inl (insert-has_meta meta.name meta result cache (inr same))
    | inr e ↦ inr (ground arith, named)
  ]

  -- What is known stays known, and what a row names becomes known.
  note_rows-has_meta :
      (vs : List Value) (cache : FieldCache) (result : Dict String FieldMeta) (found : List String)
      (known : Dict String FieldMeta) (names : List String)
      → (note_rows model vs cache result found).0 ≡ ok (known, names)
      → (has_meta model fn result cache ≡ true) ⊎ (elem fn found ≡ false) × (elem fn names ≡ true)
      → has_meta model fn known (note_rows model vs cache result found).1 ≡ true
  unfolding note_rows set_cached
  note_rows-has_meta [] cache result found known names h (inl has) =
      let kept : result ≡ known = cc in rw (← kept) has
  note_rows-has_meta [] cache result found known names h (inr (absent, named)) =
      let same : found ≡ names = cc in absurd (ground arith)
  note_rows-has_meta (v ∷ vs) cache result found known names h cases =
      elim (Result-cases (row_meta v)) [
        | inr (e, bad) ↦ absurd (ground arith)
        | inl (meta, good) ↦
            let opened : (note_rows model vs (set_cached model meta.name meta cache)
                  (insert meta.name meta result) (meta.name ∷ found)).0
                ≡ ok (known, names) =
              ground arith in
            rw (good, note_rows)
              (note_rows-has_meta vs (set_cached model meta.name meta cache)
                (insert meta.name meta result) (meta.name ∷ found) known names opened
                (noted meta result cache found names cases))
      ]

  filled_step :
      (x : String) (meta : FieldMeta) (result : Dict String FieldMeta) (cache : FieldCache)
      (still : Bool)
      → (has_meta model fn result cache || (fn == x || still)) ≡ true
      → (has_meta model fn (insert x meta result) (insert (cache_key model x) meta cache) || still)
        ≡ true
  filled_step x meta result cache true h = ground arith
  filled_step x meta result cache false h = elim (Bool-cases (has_meta model fn result cache)) [
    | inl has ↦ ground (arith, insert-has_meta x meta result cache (inl has))
    | inr new ↦
        let same : fn ≡ x = ground (arith, string_eq.beq_iff fn x) in
        ground (arith, insert-has_meta x meta result cache (inr same))
  ]

  fill_missing-has_meta :
      (found missing : List String) (cache : FieldCache) (result : Dict String FieldMeta)
      → (has_meta model fn result cache || (elem fn missing && not (elem fn found))) ≡ true
      → let filled = fill_missing model found missing cache result in
        has_meta model fn filled.0 filled.1 ≡ true
  unfolding fill_missing set_cached
  fill_missing-has_meta found [] cache result h = ground arith
  fill_missing-has_meta found (x ∷ missing) cache result h = elim (Bool-cases (elem x found)) [
    | inl there ↦
        rw there (
          fill_missing-has_meta found missing cache result (ground (arith, string_eq.beq_iff fn x)))
    | inr fresh ↦ rw fresh (
        fill_missing-has_meta found missing (set_cached model x (char_meta x) cache)
          (insert x (char_meta x) result)
          (filled_step x (char_meta x) result cache (elem fn missing && not (elem fn found))
            (ground arith)))
  ]

  rows_noted :
      (missing : List String) (rows : List Value) (cache : FieldCache)
      (result known : Dict String FieldMeta) (found : List String)
      → (note_rows model rows cache result []).0 ≡ ok (known, found)
      → (has_meta model fn result cache || elem fn missing) ≡ true
      → (has_meta model fn known (note_rows model rows cache result []).1
          || (elem fn missing && not (elem fn found)))
        ≡ true
  rows_noted missing rows cache result known found h has =
      elim (Bool-cases (has_meta model fn result cache)) [
        | inl before ↦
            ground (arith, note_rows-has_meta rows cache result [] known found h (inl before))
        | inr new ↦ elim (Bool-cases (elem fn found)) [
          | inl named ↦
              ground
                (arith, note_rows-has_meta rows cache result [] known found h (inr (refl, named)))
          | inr unnamed ↦ ground arith
        ]
      ]

  -- After an answer that is taken, a name that was known or missing is known.
  pub note_answer-has_meta :
      (missing : List String) (records : Value) (cache : FieldCache)
      (result known : Dict String FieldMeta)
      → (note_answer model missing records cache result).0 ≡ ok known
      → (has_meta model fn result cache || elem fn missing) ≡ true
      → has_meta model fn known (note_answer model missing records cache result).1 ≡ true
  unfolding note_answer
  note_answer-has_meta missing records cache result known h has =
      elim (Result-cases (iterate records)) [
        | inr (e, bad) ↦ absurd (ground arith)
        | inl (rows, listed) ↦ elim (Result-cases (note_rows model rows cache result []).0) [
          | inr (e, bad) ↦ absurd (ground arith)
          | inl ((first, found), good) ↦
              let stored = (note_rows model rows cache result []).1 in
              let full =
                fill_missing-has_meta found missing stored first
                  (rows_noted missing rows cache result first found good has) in
              let same : (fill_missing model found missing stored first).0 ≡ known = ground arith in
              rw (listed, note_answer) (rw (good, ← same) full)
        ]
      ]
