-- ===== src/Client/Pages/Queries.antt =====
-- The fields that the rounds of `iter_search_read` ask for.
use mathlib.Core.Path.{subst}
use godoo_py.Base.{
  String, string_eq, ◌≡◌, refl, sym, Bool, true, false, ◌&&◌, ◌||◌, Option, none, some, List, [],
  ◌∷◌, ◌==◌, elem, all, distinct, arith, inl, inr, Bool-cases, eq→path,
}
use godoo_py.Base.Eq.{eq_refl}
use godoo_py.Client.Pages.{fetch_fields}

-- The fields that are asked for are those that are wanted, and the ID.
abbrev pub asks : Option (List String) → Option (List String) → Bool
asks none none = true
asks (some wanted) (some fields) =
    elem "id" fields
    && (all (λ n. elem n fields) wanted && all (λ n. n == "id" || elem n wanted) fields)
asks _ _ = false

elem-distinct :
    (n : String) (seen xs : List String)
    → (elem n seen || elem n (distinct seen xs)) ≡ (elem n seen || elem n xs)
elem-distinct n seen [] = refl
elem-distinct n seen (x ∷ xs) = elim (Bool-cases (elem x seen)) [
  | inl old ↦ elim (Bool-cases (n == x)) [
    | inl same ↦
        let there : elem n seen ≡ true =
          subst (λ y. elem y seen ≡ true) (sym (eq→path n x same)) old in
        ground (arith, there)
    | inr other ↦ let later = elem-distinct n seen xs in ground (arith, old, other, later)
  ]
  | inr new ↦
      let later = elem-distinct n (x ∷ seen) xs in
      elim (Bool-cases (elem n seen)) [
        | inl there ↦ ground (arith, there)
        | inr gone ↦ ground (arith, new, gone, later)
      ]
]

all-elem :
    (q : String → Bool) (xs : List String)
    → ((n : String) → elem n xs ≡ true → q n ≡ true)
    → all q xs ≡ true
all-elem q [] h = refl
all-elem q (x ∷ xs) h =
    let here = h x (ground (arith, eq_refl x)) in
    let rest = all-elem q xs (λ n k. h n (ground (arith, k))) in ground (arith, here, rest)

pub fetch_fields-asks : (fields : Option (List String)) → asks fields (fetch_fields fields) ≡ true
unfolding fetch_fields
fetch_fields-asks none = refl
fetch_fields-asks (some fields) =
    let one =
      all-elem (λ n. elem n (distinct [] ("id" ∷ fields))) fields
        (λ n h. let found = elem-distinct n ("id" ∷ []) fields in ground (arith, found, h)) in
    let two =
      all-elem (λ n. n == "id" || elem n fields) (distinct ("id" ∷ []) fields)
        (λ n h. let found = elem-distinct n ("id" ∷ []) fields in ground (arith, found, h)) in
    ground (arith, one, two)
