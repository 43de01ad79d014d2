-- ===== src/Properties/Binding/RoundTrip.antt =====
-- Values that are read under an alias and written back under it.
use mathlib.Core.Path.{subst, subst₂}
use mathlib.Core.Bool.{false≢true}
use godoo_py.Base.{
  String, ◌≡◌, ◌≢◌, refl, sym, inl, inr, Bool, true, false, Option, none, some, List, [], ◌∷◌, ◌==◌,
  string_eq, all, ok, check, require, arith, >>=-eq-ok, Bool-cases, eq→path, eq_refl,
}
use godoo_py.Base.Dict.{Dict, insert, lookup, contains, is_dict, lookup-insert, contains-lookup}
use godoo_py.Value.{
  iterate, Value, null, bool, int, float, str, list, tuple, dict, items, of_items, as_list,
  items-of_items, of_items-items, is_hashable,
}
use godoo_py.Faults.{Checked, property_value, type_error}
use godoo_py.Properties.Binding.Declare.{Alias}
use godoo_py.Properties.Binding.Aliases.{
  mapped, mapped_all, reversed, is_tags, raw_values, as_read, project_options, project_value,
  given_values, translate_options, translate_value, translate_change,
}

lookup-below :
    (n m o p : String) (options : Dict String String)
    → is_dict ((n, o) ∷ options) ≡ true
    → lookup m options ≡ some p
    → lookup m ((n, o) ∷ options) ≡ some p
lookup-below n m o p options d e = elim (Bool-cases (m == n)) [
  | inl same ↦
      let path : m ≡ n = eq→path m n same in
      let held : contains n options ≡ true =
        subst (λ (k : String). contains k options ≡ true) path (contains-lookup m p options e) in
      absurd (absent held)
  | inr other ↦ rw other e
]
  where
    absent : contains n options ≡ true → ⊥
    absent held = false≢true (sym (ground (arith, held, d)))

-- What the reversed dict says of an ID was there before or is said by the options.
lookup-reversed :
    (all_options : Dict String String) (done options : Dict String String) (oid name : String)
    → ((o n : String) → lookup o done ≡ some n → lookup n all_options ≡ some o)
    → ((n o : String) → lookup n options ≡ some o → lookup n all_options ≡ some o)
    → is_dict options ≡ true
    → lookup oid (reversed done options) ≡ some name
    → lookup name all_options ≡ some oid
unfolding reversed
lookup-reversed all_options done [] oid name p q d h = p oid name h
lookup-reversed all_options done ((n, o) ∷ options) oid name p q d h =
    lookup-reversed all_options (insert o n done) options oid name kept later (ground arith) h
  where
    kept :
        (o' n' : String) → lookup o' (insert o n done) ≡ some n' → lookup n' all_options ≡ some o'
    kept o' n' e = elim (Bool-cases (o' == o)) [
      | inl same ↦
          let same_id : o' ≡ o = eq→path o' o same in
          let same_name : n ≡ n' = ground (arith, lookup-insert o' o n done, e, same) in
          subst₂ (λ (k v : String). lookup k all_options ≡ some v) same_name (sym same_id)
            (q n o (rw (eq_refl n)))
      | inr other ↦ p o' n' (ground (arith, lookup-insert o' o n done, e, other))
    ]

    later : (n' o' : String) → lookup n' options ≡ some o' → lookup n' all_options ≡ some o'
    later n' o' e = q n' o' (lookup-below n n' o o' options d e)

mapped-reversed :
    (options : Dict String String) (v w : Value)
    → is_dict options ≡ true
    → mapped (reversed [] options) v ≡ some w
    → mapped options w ≡ some v
unfolding mapped
mapped-reversed options (str s) w d h = found (lookup s (reversed [] options)) refl
  where
    found :
        (r : Option String) → lookup s (reversed [] options) ≡ r → mapped options w ≡ some (str s)
    found none e = ground (arith, e, h)
    found (some t) e =
        let same : str t ≡ w = ground (arith, e, h) in
        let back = lookup-reversed options [] options s t (λ o n f. cc f) (λ n o f. f) d e in
        subst (λ (x : Value). mapped options x ≡ some (str s)) same (ground (arith, back))
mapped-reversed options v w d h = cc h

mapped_all-reversed :
    (options : Dict String String) (vs ws : List Value)
    → is_dict options ≡ true
    → mapped_all (reversed [] options) vs ≡ some ws
    → mapped_all options ws ≡ some vs
unfolding mapped_all
mapped_all-reversed options [] ws d h = let same : [] ≡ ws = ground arith in rw (← same)
mapped_all-reversed options (v ∷ vs) ws d h =
    both (mapped (reversed [] options) v) (mapped_all (reversed [] options) vs) refl refl
      (λ rest f. mapped_all-reversed options vs rest d f)
  where
    both :
        (w : Option Value) (rest : Option (List Value))
        → mapped (reversed [] options) v ≡ w
        → mapped_all (reversed [] options) vs ≡ rest
        → ((r : List Value)
            → mapped_all (reversed [] options) vs ≡ some r
            → mapped_all options r ≡ some vs)
        → mapped_all options ws ≡ some (v ∷ vs)
    both none rest e f back = absurd (ground (arith, e, h))
    both (some w) none e f back = absurd (ground (arith, e, f, h))
    both (some w) (some rest) e f back =
        let same : w ∷ rest ≡ ws = ground (arith, e, f, h) in
        subst (λ (x : List Value). mapped_all options x ≡ some (v ∷ vs)) same
          (ground (arith, mapped-reversed options v w d e, back rest f))

given-raw :
    (tags : Bool) (v : Value) (raws : List Value)
    → given_values tags v ≡ some raws
    → (raw_values tags v ≡ ok raws) × (as_read tags raws ≡ ok v)
unfolding raw_values as_read iterate
given-raw true (list vs) raws h =
    let same : items vs ≡ raws = ground arith in
    subst
      (λ (r : List Value).
        (◌≡◌ {A = Checked (List Value)} (ok (items vs)) (ok r))
        × (◌≡◌ {A = Checked Value} (ok (list (of_items r))) (ok (list vs))))
      same (refl, rw (of_items-items vs))
given-raw true null raws h = absurd (ground arith)
given-raw true (bool b) raws h = absurd (ground arith)
given-raw true (int n) raws h = absurd (ground arith)
given-raw true (float x) raws h = absurd (ground arith)
given-raw true (str s) raws h = absurd (ground arith)
given-raw true (tuple vs) raws h = absurd (ground arith)
given-raw true (dict fs) raws h = absurd (ground arith)
given-raw false v raws h =
    let same : v ∷ [] ≡ raws = ground arith in
    subst
      (λ (r : List Value).
        (◌≡◌ {A = Checked (List Value)} (ok (v ∷ [])) (ok r)) × (as_read false r ≡ ok v))
      same (refl, refl)

require-some : {A : Type 0} (o : Option A) (a : A) → require o property_value ≡ ok a → o ≡ some a
require-some none a h = absurd (ground arith)
require-some (some x) a h = ground arith

single_item :
    (names : Dict String String) (v : Value) (r : Option Value) (ws : List Value)
    → mapped names v ≡ r
    → mapped_all names (v ∷ []) ≡ some ws
    → (n : Value) × (ws ≡ n ∷ [])
unfolding mapped_all
single_item names v none ws e h = absurd (ground (arith, e, h))
single_item names v (some n) ws e h = (n, ground (arith, e, h))

-- What is read is given back as the same items.
read-given :
    (tags : Bool) (names : Dict String String) (v w : Value) (raws ws : List Value)
    → given_values tags v ≡ some raws
    → mapped_all names raws ≡ some ws
    → as_read tags ws ≡ ok w
    → given_values tags w ≡ some ws
unfolding as_read mapped_all
read-given true names v w raws ws g m h =
    let same : list (of_items ws) ≡ w = ground arith in
    subst (λ (x : Value). as_list x ≡ some ws) same (rw (items-of_items ws))
read-given false names v w raws ws g m h =
    let same : v ∷ [] ≡ raws = ground arith in
    let (n, only) = single_item names v (mapped names v) ws refl (rw same m) in
    let one : n ≡ w = ground (arith, only, h) in rw (only, one)

translate-project :
    (entry : Alias) (options : Dict String String) (v w : Value) (raws : List Value)
    → is_dict options ≡ true
    → given_values (is_tags entry) v ≡ some raws
    → project_options entry options v ≡ ok w
    → translate_options entry options w ≡ ok v
unfolding project_options translate_options
translate-project entry options v w raws d g h =
    let tags = is_tags entry in
    let (read_raws, back) = given-raw tags v raws g in
    let (raws', a, b) = >>=-eq-ok (raw_values tags v) _ h in
    let same : raws' ≡ raws = ground (arith, read_raws, a) in
    let (_, _, c) = >>=-eq-ok (check (all is_hashable raws') type_error) _ b in
    let (names, m, e) =
      >>=-eq-ok (require (mapped_all (reversed [] options) raws') property_value) _ c in
    let found : mapped_all (reversed [] options) raws ≡ some names =
      rw (← same) (require-some _ names m) in
    let given = read-given tags (reversed [] options) v w raws names g found e in
    rw (given, translate_options) (rw (mapped_all-reversed options raws names d found) back)

no_null :
    (entry : Alias) (options : Dict String String) (v : Value)
    → translate_options entry options null ≡ ok v
    → ⊥
unfolding translate_options mapped_all mapped
no_null entry options v h = elim (Bool-cases (is_tags entry)) [
  | inl tags ↦ absurd (ground (arith, tags, h))
  | inr single ↦ absurd (ground (arith, single, h))
]

translate_value-set :
    (entry : Alias) (options : Dict String String) (v w : Value)
    → translate_options entry options w ≡ ok v
    → translate_value entry (some options) w ≡ ok v
unfolding translate_value
translate_value-set entry options v null h = absurd (no_null entry options v h)
translate_value-set entry options v w h = h

values_back :
    (entry : Alias) (options : Dict String String) (v w : Value) (raws : List Value)
    → is_dict options ≡ true
    → (v ≢ null → given_values (is_tags entry) v ≡ some raws)
    → project_value entry (some options) v ≡ ok w
    → translate_value entry (some options) w ≡ ok v
unfolding project_value translate_value
values_back entry options null w raws d g h = let same : null ≡ w = ground arith in rw (← same)
values_back entry options v w raws d g h =
    translate_value-set entry options v w
      (translate-project entry options v w raws d (g (λ e. cc e)) h)

-- A value that is read under an alias with options, and written back under that alias, is the value
-- of the property again; for tags, if that was a list or unset.
pub translate_change-project_value :
    (aliases : Dict String Alias) (alias : String) (entry : Alias) (options : Dict String String)
    (v w : Value) (raws : List Value)
    → lookup alias aliases ≡ some entry
    → entry.options ≡ some options
    → is_dict options ≡ true
    → (v ≢ null → given_values (is_tags entry) v ≡ some raws)
    → project_value entry entry.options v ≡ ok w
    → translate_change aliases alias w ≡ ok (entry.definition.id, v)
unfolding translate_change project_value project_options
translate_change-project_value aliases alias entry options v w raws found mapped_to d g h =
    let back = values_back entry options v w raws d g (rw mapped_to at h) in
    ground (arith, found, mapped_to, back)
