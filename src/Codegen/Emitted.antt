-- ===== src/Codegen/Emitted.antt =====
-- What the loop of `generate` over the fields of a schema emits and imports.
use godoo_py.Base.{
  All-append, String, string_eq, pair_eq, ◌≡◌, ◌∙◌, sym, ap, refl, Bool, true, false, ◌||◌, some,
  List, [], ◌∷◌, ◌++◌, ◌==◌, any, ok, arith, inl, inr, eq→path, Bool-cases, Result-cases,
}
use mathlib.Core.Path.{subst}
use godoo_py.Base.Eq.{eq_refl}
use godoo_py.Base.Dict.{Dict, lookup}
use godoo_py.Introspection.{FieldSchema, ModelSchema}
use godoo_py.Codegen.{
  Texts, Emission, has_extra, pydantic_field, relation_of, model_to_classname, model_to_stem,
}
use godoo_py.Codegen.Modules.{
  Progress, no_progress, is_in_set, cross_import, emit_field, emit_fields, add_entry, is_skipped,
}
use godoo_py.Codegen.Bound.{is_bound, elem-append_left, elem-append_right, add_entry-here}
use godoo_py.Codegen.Imported.{
  pydantic_field-IsBound, cross_import-kept, AllBound, is_bound-wider, All-wider,
}

module _ (texts : Texts) (in_set : List String) where
  -- What a field that is emitted does to the progress
  emit_field-ok :
      (name : String) (field : FieldSchema) (p p' : Progress)
      → emit_field texts in_set name field p ≡ ok p'
      → (e : Emission) × (entries : List (String × String)) × (pydantic_field texts in_set field
          ≡ ok e)
        × (cross_import texts in_set field p.cross_imports ≡ ok entries)
        × (p' ≡ record {
          imports = p.imports ++ e.imports;
          need_field_import = p.need_field_import || has_extra e;
          cross_imports = entries;
          emitted = p.emitted ++ ((name, e) ∷ []);
        })
  unfolding emit_field
  emit_field-ok name field p p' h = elim (Result-cases (pydantic_field texts in_set field)) [
    | inr (fault, failed) ↦ absurd (ground arith)
    | inl (e, made) ↦ elim (Result-cases (cross_import texts in_set field p.cross_imports)) [
      | inr (fault, failed) ↦ absurd (ground arith)
      | inl (entries, crossed) ↦
          let next : Progress = record {
            imports = p.imports ++ e.imports;
            need_field_import = p.need_field_import || has_extra e;
            cross_imports = entries;
            emitted = p.emitted ++ ((name, e) ∷ []);
          } in
          let opened : emit_field texts in_set name field p ≡ ok next =
            rw (made, crossed, emit_field) refl in
          let same : ok next ≡ ok p' = sym opened ∙ h in (e, entries, made, crossed, cc)
    ]
  ]

  emit_field-AllBound :
      (name : String) (field : FieldSchema) (p p' : Progress)
      → emit_field texts in_set name field p ≡ ok p'
      → AllBound p
      → AllBound p'
  emit_field-AllBound name field p p' h bound =
      let (e, entries, made, crossed, same) = emit_field-ok name field p p' h in
      let imports = p.imports ++ e.imports in
      let older : (name : String)
          → is_bound p.imports p.cross_imports name ≡ true
          → is_bound imports entries name ≡ true =
        λ name.
          is_bound-wider p.imports imports p.cross_imports entries name
            (elem-append_left name p.imports e.imports)
            (cross_import-kept texts in_set (λ entry. entry.1 == name) field p.cross_imports entries
              crossed) in
      let newer : (name : String)
          → is_bound e.imports entries name ≡ true
          → is_bound imports entries name ≡ true =
        λ name.
          is_bound-wider e.imports imports entries entries name
            (elem-append_right name p.imports e.imports) (λ h. h) in
      rw same (
        All-append _ p.emitted ((name, e) ∷ [])
          (All-wider p.imports imports p.cross_imports entries p.emitted older bound)
          (All-wider e.imports imports entries entries ((name, e) ∷ []) newer (
            (pydantic_field-IsBound texts in_set field p.cross_imports entries crossed).bound e
                made,
            tt,
          )))

  emit_fields-AllBound_from :
      (fields : Dict String FieldSchema) (p p' : Progress)
      → emit_fields texts in_set fields p ≡ ok p'
      → AllBound p
      → AllBound p'
  unfolding emit_fields
  emit_fields-AllBound_from [] p p' h bound = let same : p ≡ p' = cc in subst AllBound same bound
  emit_fields-AllBound_from ((name, field) ∷ fields) p p' h bound =
      elim (Bool-cases (is_skipped texts in_set name)) [
        | inl skipped ↦ emit_fields-AllBound_from fields p p' (ground arith) bound
        | inr kept ↦ elim (Result-cases (emit_field texts in_set name field p)) [
          | inr (fault, failed) ↦ absurd (ground arith)
          | inl (next, made) ↦
              emit_fields-AllBound_from fields next p' (ground arith)
                (emit_field-AllBound name field p next made bound)
        ]
      ]

  -- Every name that the annotation of an emitted field uses is a builtin, or one of the names that
  -- `generate` then imports, or the class of another generated module that it imports.
  pub emit_fields-AllBound :
      (fields : Dict String FieldSchema) (p : Progress)
      → emit_fields texts in_set fields no_progress ≡ ok p
      → AllBound p
  emit_fields-AllBound fields p h = emit_fields-AllBound_from fields no_progress p h tt

  emit_fields-kept :
      (q : String × String → Bool) (fields : Dict String FieldSchema) (p p' : Progress)
      → emit_fields texts in_set fields p ≡ ok p'
      → any q p.cross_imports ≡ true
      → any q p'.cross_imports ≡ true
  unfolding emit_fields
  emit_fields-kept q [] p p' h there =
      let same : p ≡ p' = cc in subst (λ p. any q p.cross_imports ≡ true) same there
  emit_fields-kept q ((name, field) ∷ fields) p p' h there =
      elim (Bool-cases (is_skipped texts in_set name)) [
        | inl skipped ↦ emit_fields-kept q fields p p' (ground arith) there
        | inr kept ↦ elim (Result-cases (emit_field texts in_set name field p)) [
          | inr (fault, failed) ↦ absurd (ground arith)
          | inl (next, made) ↦
              let (e, entries, emitted, crossed, same) = emit_field-ok name field p next made in
              let later =
                cross_import-kept texts in_set q field p.cross_imports entries crossed there in
              emit_fields-kept q fields next p' (ground arith)
                (subst (λ p. any q p.cross_imports ≡ true) (sym same) later)
        ]
      ]

  -- A relation to a generated model is imported from the module of that model.
  cross_import-stem :
      (field : FieldSchema) (entries entries' : List (String × String))
      → is_in_set in_set field ≡ true
      → cross_import texts in_set field entries ≡ ok entries'
      → any (λ entry. entry.0 == model_to_stem (relation_of field)) entries' ≡ true
  unfolding cross_import
  cross_import-stem field entries entries' inside crossed =
      elim (Result-cases (model_to_classname texts (relation_of field))) [
        | inr (fault, failed) ↦ absurd (ground arith)
        | inl (target, named) ↦
            let stem = model_to_stem (relation_of field) in
            let entry : String × String = (stem, target) in
            let opened : cross_import texts in_set field entries ≡ ok (add_entry entry entries) =
              rw (inside, named, cross_import) refl in
            let same : ok (add_entry entry entries) ≡ ok entries' = sym opened ∙ crossed in
            let added : add_entry entry entries ≡ entries' = cc in
            ap (any (λ entry. entry.0 == stem)) (sym added)
            ∙ add_entry-here (λ entry. entry.0 == stem) entry entries (eq_refl stem)
      ]

  emit_fields-imports :
      (name : String) (field : FieldSchema) (fields : Dict String FieldSchema) (p p' : Progress)
      → emit_fields texts in_set fields p ≡ ok p'
      → lookup name fields ≡ some field
      → is_skipped texts in_set name ≡ false
      → is_in_set in_set field ≡ true
      → any (λ entry. entry.0 == model_to_stem (relation_of field)) p'.cross_imports ≡ true
  unfolding emit_fields
  emit_fields-imports name field [] p p' h there emitted inside = absurd cc
  emit_fields-imports name field ((n, f) ∷ fields) p p' h there emitted inside =
      elim (Bool-cases (name == n)) [
        | inr other ↦ elim (Bool-cases (is_skipped texts in_set n)) [
          | inl skipped ↦
              emit_fields-imports name field fields p p' (ground arith) (ground arith) emitted
                inside
          | inr kept ↦ elim (Result-cases (emit_field texts in_set n f p)) [
            | inr (fault, failed) ↦ absurd (ground arith)
            | inl (next, made) ↦
                emit_fields-imports name field fields next p' (ground arith) (ground arith) emitted
                  inside
          ]
        ]
        | inl same ↦
            let kept =
              subst (λ n. is_skipped texts in_set n ≡ false) (eq→path name n same) emitted in
            let found : f ≡ field = ground arith in
            elim (Result-cases (emit_field texts in_set n f p)) [
              | inr (fault, failed) ↦ absurd (ground arith)
              | inl (next, made) ↦
                  let (e, entries, _, crossed, after) = emit_field-ok n f p next made in
                  let inside' = subst (λ f. is_in_set in_set f ≡ true) (sym found) inside in
                  let here = cross_import-stem f p.cross_imports entries inside' crossed in
                  let stem : String → String × String → Bool = λ s entry. entry.0 == s in
                  emit_fields-kept (stem (model_to_stem (relation_of field))) fields next p'
                    (ground arith)
                    (subst
                      (λ p. any (stem (model_to_stem (relation_of field))) p.cross_imports ≡ true)
                      (sym after)
                      (subst (λ f. any (stem (model_to_stem (relation_of f))) entries ≡ true) found
                        here))
            ]
      ]

  pub emit_fields-imports_self :
      (schema : ModelSchema) (name : String) (field : FieldSchema) (p : Progress)
      → emit_fields texts in_set schema.fields no_progress ≡ ok p
      → lookup name schema.fields ≡ some field
      → is_skipped texts in_set name ≡ false
      → is_in_set in_set field ≡ true
      → relation_of field ≡ schema.name
      → any (λ entry. entry.0 == model_to_stem schema.name) p.cross_imports ≡ true
  emit_fields-imports_self schema name field p h there emitted inside own =
      subst (λ relation. any (λ entry. entry.0 == model_to_stem relation) p.cross_imports ≡ true)
        own (emit_fields-imports name field schema.fields no_progress p h there emitted inside)
