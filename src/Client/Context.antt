-- ===== src/Client/Context.antt =====
-- The RPC context that a call sends outside a fixed scope.
use godoo_py.Base.{
  String, ◌≡◌, refl, true, false, some, ok, arith, string_eq, if◌then◌else◌, ◌==◌, is_empty,
}
use godoo_py.Base.Dict.{
  Dict, insert, lookup, contains, merge, is_dict, lookup-merge, contains-lookup, lookup-insert,
  lookup-insert_self,
}
use godoo_py.Value.{Value, dict, Fields, entries, of_entries}
use godoo_py.Client.State.{Client}
use godoo_py.Client.Call.{merged_kwargs, ContextScope, enter, exit, or_empty}

-- In nested blocks the inner layer wins over the outer one, and that over what was there before; and
-- leaving both blocks puts back what was there.
nested_layers :
    (outer inner : ContextScope) (s : Client) (k : String)
    → is_dict outer.layer ≡ true
    → is_dict inner.layer ≡ true
    → let (outer', s1) = enter outer s in
      let (inner', s2) = enter inner s1 in
      (lookup k (or_empty s2.ambient) ≡ (
        if contains k inner.layer
        then lookup k inner.layer
        else if contains k outer.layer
        then lookup k outer.layer
        else lookup k (or_empty s.ambient)))
      × ((exit outer' (exit inner' s2).1).1.ambient ≡ s.ambient)
unfolding enter exit
nested_layers outer inner s k ho hi = (
  rw (lookup-merge k (merge (or_empty s.ambient) outer.layer) inner.layer hi)
      (rw (lookup-merge k (or_empty s.ambient) outer.layer ho) refl),
  refl,
)

-- An explicit context is merged over the ambient one: each of its keys wins, the other ambient keys
-- are sent too, and no other keyword argument changes.
explicit_context_wins :
    (ambient kwargs : Dict String Value) (fs : Fields) (j k : String)
    → lookup "context" kwargs ≡ some (dict fs)
    → is_dict (entries fs) ≡ true
    → is_empty (merge ambient (entries fs)) ≡ false
    → (j == "context") ≡ false
    → (out c : Dict String Value) × (merged_kwargs ambient kwargs ≡ ok out)
      × (lookup "context" out ≡ some (dict (of_entries c)))
      × (lookup k c ≡ (if contains k (entries fs) then lookup k (entries fs) else lookup k ambient))
      × (lookup j out ≡ lookup j kwargs)
unfolding merged_kwargs
explicit_context_wins ambient kwargs fs j k given proper nonempty other = (
  insert "context" (dict (of_entries (merge ambient (entries fs)))) kwargs,
  merge ambient (entries fs),
  ground (arith, contains-lookup "context" (dict fs) kwargs given),
  lookup-insert_self "context" (dict (of_entries (merge ambient (entries fs)))) kwargs,
  lookup-merge k ambient (entries fs) proper,
  ground (arith, lookup-insert j "context" (dict (of_entries (merge ambient (entries fs)))) kwargs),
)
