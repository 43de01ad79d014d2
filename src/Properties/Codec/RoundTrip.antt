-- ===== src/Properties/Codec/RoundTrip.antt =====
-- Values that have been read can be written back, and read again unchanged.
use mathlib.Core.Path.{subst}
use godoo_py.Base.{
  ◌≡◌, refl, sym, ◌∙◌, some, ◌⊎◌, Bool, true, false, List, [], ◌∷◌, map, all, ok, arith,
  Option-cases, inl, inr,
}
use godoo_py.Value.{
  Value, null, bool, int, float, str, list, tuple, dict, nil, items, of_items-items, is_unset,
}
use godoo_py.Properties.Types.{PropertyOption, PropertyDefinition}
use godoo_py.Properties.Codec.Values.{
  Calendar, Kind, boolean, many2one, many2many, tags, is_record_id, without_name, strip_names,
  is_valid, unset_value, value_of_kind, value_for, kind_of,
}

map-without_name : (vs : List Value) → all is_record_id vs ≡ true → map without_name vs ≡ vs
unfolding without_name
map-without_name [] h = refl
map-without_name (int n ∷ vs) h = ground (arith, map-without_name vs)
map-without_name (null ∷ vs) h = cc
map-without_name (bool b ∷ vs) h = cc
map-without_name (float x ∷ vs) h = cc
map-without_name (str s ∷ vs) h = cc
map-without_name (list l ∷ vs) h = cc
map-without_name (tuple l ∷ vs) h = cc
map-without_name (dict d ∷ vs) h = cc

strip_names-writing : (kind : Kind) (v : Value) → strip_names kind false v ≡ v
unfolding strip_names
strip_names-writing many2one v = refl
strip_names-writing many2many (list vs) = refl
strip_names-writing many2many v = refl
strip_names-writing kind v = refl

module _ (calendar : Calendar) (options : List PropertyOption) where
  -- A valid value has no display name left.
  strip_names-valid :
      (kind : Kind) (w : Value)
      → is_valid calendar kind options w ≡ ok true
      → strip_names kind true w ≡ w
  unfolding strip_names is_valid
  strip_names-valid many2one (int n) h = unfold without_name in refl
  strip_names-valid many2one w h = cc
  strip_names-valid many2many (list vs) h =
      ground (arith, map-without_name (items vs), of_items-items vs)
  strip_names-valid many2many w h = refl
  strip_names-valid kind w h = refl

  is_unset-record_id :
      (w : Value) → is_valid calendar many2one options w ≡ ok true → is_unset w ≡ false
  unfolding is_valid
  is_unset-record_id (int n) h = refl
  is_unset-record_id w h = cc

  is_unset-strip_names :
      (kind : Kind) (v : Value)
      → is_unset v ≡ false
      → is_valid calendar kind options (strip_names kind true v) ≡ ok true
      → is_unset (strip_names kind true v) ≡ false
  unfolding strip_names
  is_unset-strip_names many2one v set valid = is_unset-record_id (without_name v) valid
  is_unset-strip_names many2many (list vs) set valid = refl
  is_unset-strip_names many2many v set valid = set
  is_unset-strip_names kind v set valid = set

  -- A valid value that is set is its own wire value, and is read unchanged.
  value_of_kind-valid :
      (kind : Kind) (w : Value) (reading : Bool)
      → is_unset w ≡ false
      → is_valid calendar kind options w ≡ ok true
      → value_of_kind calendar kind options w reading ≡ ok w
  unfolding value_of_kind
  value_of_kind-valid kind w true set valid = ground (arith, strip_names-valid kind w valid)
  value_of_kind-valid kind w false set valid = ground (arith, strip_names-writing kind w)

  unset_value-written :
      (kind : Kind)
      → (x : Value) × (value_of_kind calendar kind options (unset_value kind true) false ≡ ok x)
        × (value_of_kind calendar kind options x true ≡ ok (unset_value kind true))
  unfolding value_of_kind
  unset_value-written boolean = (bool false, refl, refl)
  unset_value-written many2many = (list nil, refl, refl)
  unset_value-written tags = (list nil, refl, refl)
  unset_value-written kind = (bool false, refl, refl)

  -- What a successful call has done: the value was unset, or it is valid.
  value_of_kind_cases :
      (kind : Kind) (v w : Value) (reading : Bool)
      → value_of_kind calendar kind options v reading ≡ ok w
      → (w ≡ unset_value kind reading)
        ⊎ ((is_unset v ≡ false)
            × (w ≡ strip_names kind reading v)
            × (is_valid calendar kind options w ≡ ok true))
  unfolding value_of_kind
  value_of_kind_cases kind v w reading h = ground (arith)

  value_of_kind-read :
      (kind : Kind) (v w : Value)
      → value_of_kind calendar kind options v true ≡ ok w
      → (x : Value) × (value_of_kind calendar kind options w false ≡ ok x)
        × (value_of_kind calendar kind options x true ≡ ok w)
  value_of_kind-read kind v w h = elim (value_of_kind_cases kind v w true h) [
    | inl e ↦ rw e (unset_value-written kind)
    | inr (set, e, valid) ↦
        let kept : is_unset w ≡ false = rw e (is_unset-strip_names kind v set (rw e at valid)) in
        (w, value_of_kind-valid kind w false kept valid, value_of_kind-valid kind w true kept valid)
  ]

module _ (calendar : Calendar) (options : List PropertyOption) where
  unset_value_again :
      (kind : Kind)
      → value_of_kind calendar kind options (unset_value kind false) false
        ≡ ok (unset_value kind false)
  unfolding value_of_kind
  unset_value_again boolean = refl
  unset_value_again many2many = refl
  unset_value_again tags = refl
  unset_value_again kind = refl

  value_of_kind_again :
      (kind : Kind) (v w : Value)
      → value_of_kind calendar kind options v false ≡ ok w
      → value_of_kind calendar kind options w false ≡ ok w
  value_of_kind_again kind v w h = elim (value_of_kind_cases calendar options kind v w false h) [
    | inl e ↦ rw e (unset_value_again kind)
    | inr (set, e, valid) ↦
        let same : w ≡ v = e ∙ strip_names-writing kind v in
        subst (λ u. value_of_kind calendar kind options u false ≡ ok w) (sym same) h
  ]

-- What was accepted for writing is accepted again, unchanged.
pub value_for_idem :
    (calendar : Calendar) (definition : PropertyDefinition) (v w : Value)
    → value_for calendar definition v false ≡ ok w
    → value_for calendar definition w false ≡ ok w
unfolding value_for
value_for_idem calendar definition v w h = elim (Option-cases (kind_of definition.type)) [
  | inl e ↦ ground arith
  | inr (kind, e) ↦
      rw (e, value_for)
        (value_of_kind_again calendar definition.options kind v w (rw (e, value_for) at h))
]

-- `None` clears a property of every supported kind.
pub value_for-null :
    (calendar : Calendar) (definition : PropertyDefinition) (kind : Kind)
    → kind_of definition.type ≡ some kind
    → value_for calendar definition null false ≡ ok (unset_value kind false)
unfolding value_for
value_for-null calendar definition kind e = rw (e, value_for)

-- A value that was read from the server is accepted for writing, and what is written then reads
-- back as the same value.
pub value_for-roundtrip :
    (calendar : Calendar) (definition : PropertyDefinition) (v w : Value)
    → value_for calendar definition v true ≡ ok w
    → (x : Value) × (value_for calendar definition w false ≡ ok x)
      × (value_for calendar definition x true ≡ ok w)
unfolding value_for
value_for-roundtrip calendar definition v w h = elim (Option-cases (kind_of definition.type)) [
  | inl e ↦ ground arith
  | inr (kind, e) ↦
      rw (e, value_for)
        (value_of_kind-read calendar definition.options kind v w (rw (e, value_for) at h))
]
