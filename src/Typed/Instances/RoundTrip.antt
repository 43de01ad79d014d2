-- ===== src/Typed/Instances/RoundTrip.antt =====
-- What `_serialize_for_write` makes of what `_odoo_wire_transforms` read.
use Prim.Native.String.{◌++◌}
use godoo_py.Base.{
  ℤ, String, string_eq, ◌≡◌, ◌≢◌, ◌∙◌, sym, ap, refl, Bool, true, false, not, ◌&&◌, Option, none,
  some, arith, if◌then◌else◌, inl, inr, Bool-cases, ◌==◌, nat_eq,
}
use godoo_py.Value.{Value, null, bool, int, float, str, list, tuple, dict}
use godoo_py.Typed.{
  Annotation, annotation_is, annotation_mentions_ref, ref_target_class, is_list_annotated,
}
use godoo_py.Typed.Wire.{
  raw, a_ref, a_date, a_datetime, Calendar, text_length, has_separator, as_pair, iso_date,
  iso_datetime, text_cell, wire_value,
}
use godoo_py.Typed.Instances.{sent_value}

-- The text with the letter in place of a space, as `isoformat` separates a date from a time
abbrev pub with_t : String → String
with_t String.[] = ""
with_t (String.◌∷◌ c text) =
    (if String.◌∷◌ c String.[] == " " then "T" else String.◌∷◌ c String.[]) ++ with_t text

module _ {Date DateTime : Type 0} (calendar : Calendar Date DateTime) where
  -- A text as long as a date, if it is one, is printed as it was; and one with a separator, if it is a
  -- datetime, with the letter for the space.
  abbrev pub IsCanonical : String → Type 0
  IsCanonical text =
      ((d : Date)
        → text_length text ≡ 10
        → calendar.parse_date text ≡ some d
        → calendar.print_date d ≡ text)
      × ((t : DateTime)
          → has_separator text ≡ true
          → calendar.parse_datetime text ≡ some t
          → calendar.print_datetime t ≡ with_t text)

  -- The text of a datetime in a field of that type is written with the letter.
  abbrev pub respelled : Annotation → String → String
  respelled a text =
      if annotation_is a "datetime" && has_separator text
      then elim (calendar.parse_datetime text) [ none ↦ text | some t ↦ with_t text ]
      else text

  -- A pair of an ID and a name that is read as a reference is written as the ID.
  abbrev pub without_name : Bool → Value → Value
  without_name mentions v = elim (if mentions then as_pair v else none) [
    | none ↦ v
    | some (n, name) ↦ int n
  ]

  unpaired : (mentions : Bool) (v : Value) → as_pair v ≡ none → without_name mentions v ≡ v
  unpaired false v h = refl
  unpaired true v h = rw (h, without_name) refl

  -- What is written of a value that was read
  abbrev pub written_back : Annotation → Value → Value
  written_back a (str text) = str (respelled a text)
  written_back a v = without_name (annotation_mentions_ref a) v

  -- The cells of the rules for a text, by what was parsed
  parsed-sent :
      (text written : String) (t : Option DateTime) (d : Option Date)
      → ((t' : DateTime) → t ≡ some t' → calendar.print_datetime t' ≡ written)
      → ((d' : Date) → d ≡ some d' → calendar.print_date d' ≡ text)
      → sent_value calendar (elim t [
        | some t' ↦ a_datetime t'
        | none ↦ elim d [ some d' ↦ a_date d' | none ↦ raw (str text) ]
      ])
        ≡ str (elim t [ none ↦ text | some t' ↦ written ])
  unfolding sent_value
  parsed-sent text written (some t) d h k = ap str (h t refl)
  parsed-sent text written none (some d) h k = ap str (k d refl)
  parsed-sent text written none none h k = refl

  -- The rule for datetimes decides how the text is written.
  respelled_lem :
      (a : Annotation) (text : String)
      → elim (if annotation_is a "datetime" then iso_datetime calendar text else none) [
        | none ↦ text
        | some t ↦ with_t text
      ]
        ≡ respelled a text
  unfolding iso_datetime
  respelled_lem a text = elim (Bool-cases (annotation_is a "datetime")) [
    | inr other ↦ rw other refl
    | inl moment ↦ elim (Bool-cases (has_separator text)) [
      | inr short ↦ rw (moment, short) refl
      | inl split ↦ rw (moment, split) refl
    ]
  ]

  text_cell-sent :
      (a : Annotation) (text : String)
      → IsCanonical text
      → sent_value calendar (text_cell calendar a text) ≡ str (respelled a text)
  unfolding text_cell iso_date iso_datetime
  text_cell-sent a text (date_back, datetime_back) =
      parsed-sent text (with_t text)
        (if annotation_is a "datetime" then iso_datetime calendar text else none)
        (if annotation_is a "date" && not (annotation_is a "datetime")
          then iso_date calendar text
          else none)
        (λ t h. datetime_back t (ground arith) (ground arith))
        (λ d h.
          date_back d (ground (arith, h, nat_eq.beq_iff (text_length text) 10)) (ground arith))
      ∙ ap str (respelled_lem a text)

  raw-sent : (v : Value) → v ≢ null → sent_value calendar (raw v) ≡ v
  unfolding sent_value
  raw-sent null h = absurd (h refl)
  raw-sent (bool b) h = refl
  raw-sent (int n) h = refl
  raw-sent (float x) h = refl
  raw-sent (str text) h = refl
  raw-sent (list vs) h = refl
  raw-sent (tuple vs) h = refl
  raw-sent (dict fs) h = refl

  pair-sent :
      (target : Option String) (v : Value) (pair : Option (ℤ × Option String))
      → v ≢ null
      → sent_value calendar (elim pair [
        | none ↦ raw v
        | some (n, name) ↦ a_ref (record { id = n; name = name; target = target })
      ])
        ≡ elim pair [ none ↦ v | some (n, name) ↦ int n ]
  unfolding sent_value
  pair-sent target v none h = raw-sent v h
  pair-sent target v (some pair) h = refl

  pub wire_value-sent :
      (a : Annotation) (v : Value)
      → v ≢ null
      → is_list_annotated a ≡ false
      → ((text : String) → v ≡ str text → IsCanonical text)
      → sent_value calendar (wire_value calendar a v) ≡ written_back a v
  unfolding wire_value as_pair sent_value
  wire_value-sent a (bool false) h k c =
      let plain = unpaired (annotation_mentions_ref a) (bool false) refl in
      elim (Bool-cases (annotation_is a "bool")) [
        | inl flag ↦ rw (k, flag) (sym plain)
        | inr other ↦ rw (k, other) (sym plain)
      ]
  wire_value-sent a (str text) h k c = text_cell-sent a text (c text refl)
  wire_value-sent a null h k c = absurd (h refl)
  wire_value-sent a (bool true) h k c = pair-sent _ _ _ h
  wire_value-sent a (int n) h k c = pair-sent _ _ _ h
  wire_value-sent a (float x) h k c = pair-sent _ _ _ h
  wire_value-sent a (list vs) h k c =
      pair-sent (ref_target_class a) (list vs)
        (if annotation_mentions_ref a then as_pair (list vs) else none) h
  wire_value-sent a (tuple vs) h k c = pair-sent _ _ _ h
  wire_value-sent a (dict fs) h k c = pair-sent _ _ _ h
