-- ===== src/Client/Pages/Complete.antt =====
-- Over a server that answers as its domain, order and limit say, the pages make up the table.
use godoo_py.Base.{
  ℕ, zero, suc, ◌+◌, ◌-◌, ◌≤◌, ◌<◌, min, string_eq, ◌≡◌, refl, ap, sym, ◌∙◌, Bool, true, false,
  ◌||◌, Option, none, some, List, [], ◌∷◌, ◌++◌, map, ltb, length, take, drop, arith, Bool-cases,
  inl, inr,
}
use native.Mathlib.Nat.{zero-add}
use godoo_py.Client.Pages.{Row, shown, is_reached, fetch_size, yield_page}

-- The first `limit` rows
abbrev pub capped {ℓ} : {A : Type ℓ} → Option ℕ → List A → List A
capped none xs = xs
capped (some limit) xs = take limit xs

-- What is left of a limit
abbrev pub remaining : Option ℕ → ℕ → Option ℕ
remaining none yielded = none
remaining (some limit) yielded = some (limit - yielded)

abbrev pub IsOpen : Option ℕ → ℕ → Type 0
IsOpen none yielded = Unit
IsOpen (some limit) yielded = yielded < limit

abbrev pub Fits : Option ℕ → ℕ → Type 0
Fits none n = Unit
Fits (some limit) n = n ≤ limit

-- A page that fits under the limit is yielded whole; the loop returns if that reaches the limit.
pub yield_page_lem :
    (keep : Bool) (limit : Option ℕ) (yielded : ℕ) (page : List Row)
    → IsOpen limit yielded
    → Fits limit (yielded + length page)
    → yield_page keep limit yielded page
      ≡ (map (shown keep) page, yielded + length page, is_reached limit (yielded + length page))
unfolding yield_page
yield_page_lem keep none yielded [] begun fits = ground arith
yield_page_lem keep (some limit) yielded [] begun fits = ground arith
yield_page_lem keep none yielded (row ∷ page) begun fits =
    ground (arith, yield_page_lem keep none (suc yielded) page tt tt)
yield_page_lem keep (some limit) yielded (row ∷ []) begun fits = ground arith
yield_page_lem keep (some limit) yielded (row ∷ row' ∷ page) begun fits = ground (
  arith,
  yield_page_lem keep (some limit) (suc yielded) (row' ∷ page) (omega arith) (omega arith),
)

module _ {ℓ} {A : Type ℓ} where
  pub length-take-le : (n : ℕ) (xs : List A) → length (take n xs) ≤ n
  length-take-le zero xs = omega arith
  length-take-le (suc n) [] = omega arith
  length-take-le (suc n) (x ∷ xs) = omega (arith, length-take-le n xs)

  -- A page that is not full holds all that is left.
  take-short : (n m : ℕ) (xs : List A) → length (take n xs) < n → n ≤ m → take m xs ≡ take n xs
  take-short zero m xs h le = absurd (omega arith)
  take-short (suc n) zero xs h le = absurd (omega arith)
  take-short (suc n) (suc m) [] h le = refl
  take-short (suc n) (suc m) (x ∷ xs) h le =
      ap (λ t. x ∷ t) (take-short n m xs (omega arith) (omega arith))

  take-all : (n : ℕ) (xs : List A) → length (take n xs) < n → take n xs ≡ xs
  take-all zero xs h = absurd (omega arith)
  take-all (suc n) [] h = refl
  take-all (suc n) (x ∷ xs) h = ap (λ t. x ∷ t) (take-all n xs (omega arith))

  take-nil : (n : ℕ) → take {A = A} n [] ≡ []
  take-nil zero = refl
  take-nil (suc n) = refl

  take-plus : (n m : ℕ) (xs : List A) → take (n + m) xs ≡ take n xs ++ take m (drop n xs)
  take-plus zero m xs = rw zero-add
  take-plus (suc n) m [] = let e : suc n + m ≡ suc (n + m) = omega arith in rw (e, take-nil m)
  take-plus (suc n) m (x ∷ xs) =
      let e : suc n + m ≡ suc (n + m) = omega arith in rw e (ap (λ t. x ∷ t) (take-plus n m xs))

  take-append-drop : (n : ℕ) (xs : List A) → take n xs ++ drop n xs ≡ xs
  take-append-drop zero xs = refl
  take-append-drop (suc n) [] = refl
  take-append-drop (suc n) (x ∷ xs) = ap (λ t. x ∷ t) (take-append-drop n xs)

  pub length-drop_lt :
      (n : ℕ) (xs : List A) → 0 < n → 0 < length xs → length (drop n xs) < length xs
  length-drop_lt zero xs h p = absurd (omega arith)
  length-drop_lt (suc zero) (x ∷ xs) h p = omega arith
  length-drop_lt (suc (suc n)) (x ∷ []) h p = omega arith
  length-drop_lt (suc (suc n)) (x ∷ y ∷ xs) h p =
      omega (arith, length-drop_lt (suc n) (y ∷ xs) (omega arith) (omega arith))
  length-drop_lt (suc n) [] h p = absurd (omega arith)

module _ (batch_size : ℕ) (positive : 0 < batch_size) where
  pub fetch_size-pos :
      (limit : Option ℕ) (yielded : ℕ)
      → IsOpen limit yielded
      → 0 < fetch_size batch_size limit yielded
  unfolding fetch_size
  fetch_size-pos none yielded begun = positive
  fetch_size-pos (some limit) yielded begun = omega arith

  pub fetch_size-Fits :
      (limit : Option ℕ) (yielded n : ℕ)
      → IsOpen limit yielded
      → n ≤ fetch_size batch_size limit yielded
      → Fits limit (yielded + n)
  unfolding fetch_size
  fetch_size-Fits none yielded n begun h = tt
  fetch_size-Fits (some limit) yielded n begun h = omega arith

  -- The loop stops with a page that completes what was asked for.
  pub capped_last :
      (limit : Option ℕ) (yielded : ℕ) (xs : List Row)
      → IsOpen limit yielded
      → let n = fetch_size batch_size limit yielded in
        (is_reached limit (yielded + length (take n xs)) || ltb (length (take n xs)) n) ≡ true
        → take n xs ≡ capped (remaining limit yielded) xs
  unfolding fetch_size
  capped_last none yielded xs begun h = take-all batch_size xs (ground arith)
  capped_last (some limit) yielded xs begun h =
      elim (Bool-cases (
        ltb (length (take (min batch_size (limit - yielded)) xs))
          (min batch_size (limit - yielded)))) [
            | inl e ↦ sym (
                take-short (min batch_size (limit - yielded)) (limit - yielded) xs (ground arith)
                  (omega arith))
            | inr e ↦
                let full : min batch_size (limit - yielded) ≡ limit - yielded =
                  ground (arith, length-take-le (min batch_size (limit - yielded)) xs) in
                ap (λ (k : ℕ). take k xs) full
          ]

  pub capped_more :
      (limit : Option ℕ) (yielded : ℕ) (xs : List Row)
      → IsOpen limit yielded
      → let n = fetch_size batch_size limit yielded in
        (is_reached limit (yielded + length (take n xs)) || ltb (length (take n xs)) n) ≡ false
        → (IsOpen limit (yielded + length (take n xs)))
          × (capped (remaining limit yielded) xs
              ≡ take n xs ++ capped (remaining limit (yielded + length (take n xs))) (drop n xs))
  unfolding fetch_size
  capped_more none yielded xs begun h = (tt, sym (take-append-drop batch_size xs))
  capped_more (some limit) yielded xs begun h =
      let n = min batch_size (limit - yielded) in
      let full : length (take n xs) ≡ n = ground (arith, length-take-le n xs) in
      let rest : limit - yielded ≡ n + (limit - (yielded + length (take n xs))) = ground arith in
      (
        ground arith,
        ap (λ (k : ℕ). take k xs) rest ∙ take-plus n (limit - (yielded + length (take n xs))) xs,
      )
