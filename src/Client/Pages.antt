-- ===== src/Client/Pages.antt =====
-- `iter_search_read` of client.py: pages by the last ID, up to a limit. What `search_read` gives for the
-- keyword arguments of a round is the argument `search_read`.
pub mod Table
pub mod Complete
pub mod Queries
pub mod Run
use godoo_py.Base.{
  ℕ, zero, suc, ◌-◌, min, String, Bool, true, false, ◌||◌, is_empty, Option, none, some, List, [],
  ◌∷◌, ◌++◌, ◌==◌, string_eq, ltb, leb, length, elem, distinct, if◌then◌else◌, ok, err, pos, ◌>>=◌,
}
use godoo_py.Base.Dict.{Dict, lookup}
use godoo_py.Value.{Value, int, str, tuple, nil, cons}
use godoo_py.Faults.{key_error, other, Checked}

abbrev pub Row : Type 0
Row = Dict String Value

-- `caller_requested_id`
unfoldable pub requested_id : Option (List String) → Bool
requested_id none = true
requested_id (some fields) = elem "id" fields

-- `{k: v for k, v in record.items() if k != "id"}`
abbrev pub without_id : Row → Row
without_id [] = []
without_id ((k, v) ∷ d) = if k == "id" then without_id d else (k, v) ∷ without_id d

abbrev pub shown : Bool → Row → Row
shown true row = row
shown false row = without_id row

-- `limit is not None and yielded >= limit`
abbrev pub is_reached : Option ℕ → ℕ → Bool
is_reached none yielded = false
is_reached (some limit) yielded = leb limit yielded

-- `fetch_size`
unfoldable pub fetch_size : ℕ → Option ℕ → ℕ → ℕ
fetch_size batch_size none yielded = batch_size
fetch_size batch_size (some limit) yielded = min batch_size (limit - yielded)

-- The loop over one page: what it yields, the count, and whether it returned.
unfoldable pub yield_page : Bool → Option ℕ → ℕ → List Row → List Row × ℕ × Bool
yield_page keep limit yielded [] = ([], yielded, false)
yield_page keep limit yielded (row ∷ page) =
    let rest = yield_page keep limit (suc yielded) page in
    if is_reached limit (suc yielded)
    then (shown keep row ∷ [], suc yielded, true)
    else (shown keep row ∷ rest.0, rest.1, rest.2)

-- `batch[-1]["id"]`
unfoldable pub last_id : List Row → Checked Value
last_id [] = err key_error
last_id (row ∷ []) = elim (lookup "id" row) [ none ↦ err key_error | some v ↦ ok v ]
last_id (_ ∷ page) = last_id page

module _ (batch_size : ℕ) (keep : Bool) (limit : Option ℕ) where
  -- A round after its page has come: `rest` stands for the further rounds.
  unfoldable pub after_page : (Value → ℕ → Checked (List Row)) → ℕ → List Row → Checked (List Row)
  after_page rest yielded page =
      let step = yield_page keep limit yielded page in
      let more = (do cursor ← last_id page; others ← rest cursor step.1; ok (step.0 ++ others)) in
      if is_empty page
      then ok []
      else if step.2 || ltb (length page) (fetch_size batch_size limit yielded)
      then ok step.0
      else more

  -- The rounds of `while True`, with fuel
  unfoldable pub iter_from : (Value → ℕ → Checked (List Row)) → ℕ → Value → ℕ → Checked (List Row)
  iter_from fetch zero cursor yielded = err other
  iter_from fetch (suc fuel) cursor yielded = do
    page ← fetch cursor (fetch_size batch_size limit yielded)
    after_page (iter_from fetch fuel) yielded page

-- The arguments of `search_read` that differ from round to round
pub record Query : Type 0 where
  pub domain : List Value
  pub fields : Option (List String)
  pub limit : ℕ
  pub order : String

-- `domain or []`
abbrev pub base_domain : Option (List Value) → List Value
base_domain none = []
base_domain (some terms) = terms

-- `fetch_fields`
unfoldable pub fetch_fields : Option (List String) → Option (List String)
fetch_fields none = none
fetch_fields (some fields) = some (distinct [] ("id" ∷ fields))

-- The arguments of a round
unfoldable pub page_query : Option (List Value) → Option (List String) → Value → ℕ → Query
page_query domain fields cursor size = record {
  domain = base_domain domain ++ tuple (cons (str "id") (cons (str ">") (cons cursor nil))) ∷ [];
  fields = fetch_fields fields;
  limit = size;
  order = "id";
}

-- `iter_search_read`, where the rows are taken to the end
unfoldable pub iter_search_read :
    (Query → Checked (List Row))
    → Option (List Value)
    → Option (List String)
    → ℕ
    → Option ℕ
    → ℕ
    → Checked (List Row)
unfolding iter_from after_page requested_id
iter_search_read search_read domain fields batch_size limit fuel =
    iter_from batch_size (requested_id fields) limit
      (λ cursor size. search_read (page_query domain fields cursor size)) fuel (int (pos 0)) 0
