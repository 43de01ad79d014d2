-- ===== src/Client/Crud/Ref.antt =====
-- External IDs: the split at the first dot, and the one lookup of `ref`.
use Prim.Native.String.append
use Prim.Native.String.{◌++◌}
use godoo_py.Base.{
  String, string_eq, ◌==◌, ◌≡◌, ◌⊎◌, refl, inl, inr, ap, Bool-cases, Bool, false, ◌||◌, none, some,
  List, [], ◌∷◌, ok, err, arith, if◌then◌else◌, ◌>>=◌,
}
use godoo_py.Value.{Value, truthy, list, of_items}
use godoo_py.Faults.{Fault, validation, missing, Checked}
use godoo_py.Client.State.{Event, Request, sent, Client, Outside, Rpc, lift, raise, ◌>>=◌ as bind}
use godoo_py.Client.Traces.{Added, IsQuestion}
use godoo_py.Client.Once.{SendsOnce, call-SendsOnce}
use godoo_py.Client.Crud.{
  split_dot, first_res_id, search_read, ref, domain_value, equals_term, page_kwargs,
}

-- `"." in text`
abbrev pub has_dot : String → Bool
has_dot String.[] = false
has_dot (String.◌∷◌ c rest) = String.◌∷◌ c String.[] == "." || has_dot rest

-- An external ID
abbrev pub dotted : String → String → String
dotted left right = left ++ ("." ++ right)

dot-append : (right : String) → split_dot ("." ++ right) ≡ some ("", right)
unfolding split_dot
dot-append right = rw (append.cons _ "" right, append.nil right, split_dot) refl

-- The split is at the first dot.
split_dot-append :
    (left right : String)
    → has_dot left ≡ false
    → split_dot (dotted left right) ≡ some (left, right)
unfolding split_dot
split_dot-append String.[] right h = rw (append.nil ("." ++ right)) (dot-append right)
split_dot-append (String.◌∷◌ c left) right h =
    let others : has_dot left ≡ false → split_dot (dotted left right) ≡ some (left, right) =
      split_dot-append left right in
    rw (append.cons c left ("." ++ right)) (ground (arith, others))

split_dot-none : (text : String) → has_dot text ≡ false → split_dot text ≡ none
unfolding split_dot
split_dot-none String.[] h = refl
split_dot-none (String.◌∷◌ c rest) h = ground (arith, split_dot-none rest)

-- What `ref` makes of the rows that were found
abbrev pub found_id : Value → Checked Value
found_id records = if truthy records then first_res_id records else err missing

-- The domain of its lookup
abbrev pub id_domain : String → String → Value
id_domain module_name name =
    list (of_items (equals_term "module" module_name ∷ equals_term "name" name ∷ []))

module _ (outside : Outside) (module_name name : String) where
  -- The lookup raised before it was sent, or the answer decides.
  abbrev pub IsLookedUp : List Event → Checked Value → List Event → Type 0
  IsLookedUp before r now =
      ((e : Fault) × (r ≡ err e) × Added IsQuestion before now)
      ⊎ ((request : Request) × (l : List Event) × (now ≡ sent request ∷ l)
          × Added IsQuestion before l
          × (request.model ≡ "ir.model.data")
          × (request.method ≡ "search_read")
          × (request.args ≡ id_domain module_name name ∷ [])
          × (r ≡ (outside.reply l request >>= found_id)))

  -- The end of `ref`
  abbrev last_step : Value → Rpc Value
  last_step records = if truthy records then lift (first_res_id records) else raise missing

  last_step-found_id : (v : Value) (s : Client) → last_step v s ≡ (found_id v, s)
  last_step-found_id v s = elim (Bool-cases (truthy v)) [
    | inl found ↦ rw found refl
    | inr gone ↦ rw gone refl
  ]

  looked_up :
      (before : List Event) (r : Checked Value × Client)
      → SendsOnce outside "ir.model.data" "search_read"
          (id_domain module_name name ∷ [])
          before
          r.0
          r.1.log
      → let after = bind (λ _. r) last_step r.1 in IsLookedUp before after.0 after.1.log
  looked_up before (ok v, s) (inr (request, l, e, q, m, n, a, h)) =
      rw (last_step-found_id v s) (inr (request, l, e, q, m, n, a, ap (λ r. r >>= found_id) h))
  looked_up before (ok v, s) (inl (e, h, q)) = absurd cc
  looked_up before (err e, s) (inr (request, l, f, q, m, n, a, h)) =
      inr (request, l, f, q, m, n, a, ap (λ r. r >>= found_id) h)
  looked_up before (err e, s) (inl (f, h, q)) = inl (f, h, q)

  -- An external ID whose module has no dot is looked up with one `search_read` of `ir.model.data` for
  -- this module and all that follows the dot, unless an exception comes before that; without rows the
  -- exception is that of a missing record, and else the result is the `res_id` of the first row.
  ref-IsLookedUp :
      (s : Client)
      → has_dot module_name ≡ false
      → let after = ref outside (dotted module_name name) s in IsLookedUp s.log after.0 after.1.log
  unfolding ref search_read domain_value page_kwargs
  ref-IsLookedUp s h =
      rw (split_dot-append module_name name h, ref)
        (looked_up s.log _ (call-SendsOnce outside "ir.model.data" "search_read" _ _ s))

-- A text without a dot is refused before anything is sent.
pub ref-malformed :
    (outside : Outside) (text : String) (s : Client)
    → has_dot text ≡ false
    → ref outside text s ≡ (err validation, s)
unfolding ref
ref-malformed outside text s h = rw (split_dot-none text h, ref) refl
