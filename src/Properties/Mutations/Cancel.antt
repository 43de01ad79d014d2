-- ===== src/Properties/Mutations/Cancel.antt =====
-- What a cancelled batch reports.
use godoo_py.Base.{
  ℕ, ℤ, ◌≡◌, refl, sym, ap, ◌∙◌, Bool, true, false, not, ◌||◌, List, [], ◌∷◌, ◌++◌, int_eq, elem,
  select, is_unique, arith, eq_refl,
}
use mathlib.Core.List.{append_assoc}
use godoo_py.Base.Dict.{Dict, keys}
use godoo_py.Properties.Mutations.{Payload, Batch, start, Reach, cancelled, observe_all}
use godoo_py.Properties.Mutations.Order.{reverse_onto, started-in_order}
use godoo_py.Properties.Mutations.Finish.{elem-reverse_onto}

reverse_onto-append : (xs ys : List ℤ) → reverse_onto xs ys ≡ reverse_onto xs [] ++ ys
reverse_onto-append [] ys = refl
reverse_onto-append (x ∷ xs) ys =
    reverse_onto-append xs (x ∷ ys)
    ∙ rw (reverse_onto-append xs (x ∷ [])) (sym (append_assoc (reverse_onto xs []) (x ∷ []) ys))

elem-append : (a : ℤ) (xs ys : List ℤ) → elem a (xs ++ ys) ≡ (elem a xs || elem a ys)
elem-append a [] ys = refl
elem-append a (x ∷ xs) ys = ground (arith, elem-append a xs ys)

-- A test that holds on the first part of a list and nowhere on the second separates them.
module _ (p : ℤ → Bool) where
  select-split :
      (xs ys : List ℤ)
      → ((a : ℤ) → elem a xs ≡ true → p a ≡ true)
      → ((a : ℤ) → elem a ys ≡ true → p a ≡ false)
      → (select p (xs ++ ys) ≡ xs) × (select (λ a. not (p a)) (xs ++ ys) ≡ ys)
  select-split [] [] hx hy = (refl, refl)
  select-split [] (y ∷ ys) hx hy =
      let e = hy y (ground (arith, eq_refl y)) in
      let (l, r) = select-split [] ys hx (λ a m. hy a (ground arith)) in
      (rw e l, rw e (ap (λ t. y ∷ t) r))
  select-split (x ∷ xs) ys hx hy =
      let e = hx x (ground (arith, eq_refl x)) in
      let (l, r) = select-split xs ys (λ a m. hx a (ground arith)) hy in
      (rw e (ap (λ t. x ∷ t) l), rw e r)

apart :
    (xs ys : List ℤ) (a : ℤ) → is_unique (xs ++ ys) ≡ true → elem a ys ≡ true → elem a xs ≡ false
apart [] ys a h m = refl
apart (x ∷ xs) ys a h m = ground (arith, int_eq.beq_iff a x, elem-append x xs ys, apart xs ys a)

-- When a batch with distinct records is cancelled, the reported receipts are those of the started
-- records, in the order of their starts, and the undispatched IDs are exactly those still in the queue;
-- so no write was sent for them.
pub cancelled-partition :
    (payloads : Dict ℤ Payload) (concurrency : ℕ) (b : Batch)
    → is_unique (keys payloads) ≡ true
    → Reach (start payloads concurrency) b
    → ((cancelled payloads b).0 ≡ observe_all b.receipts (reverse_onto b.started []))
      × ((cancelled payloads b).1 ≡ keys b.queue)
unfolding cancelled
cancelled-partition payloads concurrency b distinct run =
    let begun = reverse_onto b.started [] in
    let order : begun ++ keys b.queue ≡ keys payloads =
      sym (reverse_onto-append b.started (keys b.queue))
      ∙ started-in_order payloads concurrency b run in
    let (l, r) =
      select-split (λ rid. elem rid b.started) begun (keys b.queue)
        (λ a m. ground (arith, elem-reverse_onto a b.started []))
        (λ a m. ground (
          arith,
          elem-reverse_onto a b.started [],
          apart begun (keys b.queue) a,
          ap is_unique order,
        )) in
    rw (← order) (ap (observe_all b.receipts) l, r)
