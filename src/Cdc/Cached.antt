-- ===== src/Cdc/Cached.antt =====
-- What the cache of field metadata promises.
use godoo_py.Base.{
  String, string_eq, ◌≡◌, refl, Bool, true, ◌||◌, List, [], ◌∷◌, elem, all, arith, ok, err, inl,
  inr, Option-cases,
}
use godoo_py.Base.Dict.{Dict, insert, contains}
use godoo_py.Value.{Value}
use godoo_py.Faults.{Checked}
use godoo_py.Client.{Client, Outside}
use godoo_py.Cdc.Noted.{has_meta, lookup-contains-none, split_names-has_meta, note_answer-has_meta}
use godoo_py.Cdc.Cache.{
  FieldMeta, FieldCache, cache_key, get_cached, Cached, split_names, noted_fields, ensure_missing,
  ensure_fields_cached,
}

module _ (model fn : String) where
  noted_fields-has_meta :
      (missing : List String) (known : Dict String FieldMeta) (cache : FieldCache)
      (answer : Checked Value × Client) (result : Dict String FieldMeta)
      → (noted_fields model missing known cache answer).0 ≡ ok result
      → (has_meta model fn known cache || elem fn missing) ≡ true
      → has_meta model fn result (noted_fields model missing known cache answer).1 ≡ true
  unfolding noted_fields
  noted_fields-has_meta missing known cache (err e, s) result h has = absurd cc
  noted_fields-has_meta missing known cache (ok records, s) result h has =
      note_answer-has_meta model fn missing records cache known result h has

  ensure_missing-has_meta :
      (outside : Outside) (missing : List String) (known : Dict String FieldMeta)
      (cache : FieldCache) (s : Client) (result : Dict String FieldMeta)
      → (ensure_missing outside model missing known cache s).0 ≡ ok result
      → (has_meta model fn known cache || elem fn missing) ≡ true
      → has_meta model fn result (ensure_missing outside model missing known cache s).1 ≡ true
  unfolding ensure_missing
  ensure_missing-has_meta outside [] known cache s result h has =
      let same : known ≡ result = cc in rw (← same) (ground arith)
  ensure_missing-has_meta outside (x ∷ rest) known cache s result h has =
      noted_fields-has_meta (x ∷ rest) known cache _ result h has

-- Every one of the names has metadata in the cache.
abbrev pub are_cached : String → List String → FieldCache → Bool
are_cached model names cache = all (λ fn. contains (cache_key model fn) cache) names

split_names-cached :
    (model : String) (names : List String) (cache : FieldCache) (result : Dict String FieldMeta)
    → are_cached model names cache ≡ true
    → (split_names model cache result names).1 ≡ []
unfolding split_names get_cached
split_names-cached model [] cache result h = refl
split_names-cached model (x ∷ names) cache result h =
    elim (Option-cases (get_cached model x cache)) [
      | inl new ↦ absurd (ground (arith, lookup-contains-none (cache_key model x) cache))
      | inr (meta, old) ↦
          rw (old, split_names)
            (split_names-cached model names cache (insert x meta result) (ground arith))
    ]

all-elem :
    (p : String → Bool) (names : List String)
    → ((x : String) → elem x names ≡ true → p x ≡ true)
    → all p names ≡ true
all-elem p [] h = refl
all-elem p (x ∷ names) h = ground (
  arith,
  h x (ground (arith, string_eq.beq_iff x x)),
  all-elem p names (λ y e. h y (ground arith)),
)

module _ (outside : Outside) (model : String) (names : List String) (cache : FieldCache)
    (s : Client) where
  abbrev after : Cached (Dict String FieldMeta)
  after = ensure_fields_cached outside model names cache s

  ensured :
      (fn : String) (known : Dict String FieldMeta)
      → after.0 ≡ ok known
      → elem fn names ≡ true
      → has_meta model fn known after.1 ≡ true
  unfolding ensure_fields_cached
  ensured fn known h named =
      let parts = split_names model cache [] names in
      ensure_missing-has_meta model fn outside parts.1 parts.0 cache s known h
        (split_names-has_meta model fn cache [] names (ground arith))

  -- If `ensure_fields_cached` returns, its result has metadata for every name; and asking for the same
  -- names again, by any client, returns without a request and leaves the cache as it is.
  pub ensure_fields_cached-kept :
      (known : Dict String FieldMeta) (later : Client)
      → after.0 ≡ ok known
      → (all (λ fn. contains fn known) names ≡ true)
        × ((again : Dict String FieldMeta) × (ensure_fields_cached outside model names after.1 later
              ≡ (ok again, after.1, later)))
  unfolding ensure_fields_cached ensure_missing
  ensure_fields_cached-kept known later h =
      let kept : are_cached model names after.1 ≡ true =
        all-elem _ names (λ x e. ground (arith, ensured x known h e)) in
      (
        all-elem _ names (λ x e. ground (arith, ensured x known h e)),
        (
          (split_names model after.1 [] names).0,
          rw (split_names-cached model names after.1 [] kept, ensure_missing) refl,
        ),
      )
