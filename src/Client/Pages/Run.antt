-- ===== src/Client/Pages/Run.antt =====
-- The whole loop against the table.
use mathlib.Core.List.{map-append}
use godoo_py.Base.{
  ℕ, zero, suc, ◌+◌, ◌-◌, ◌<◌, String, string_eq, ◌≡◌, refl, ap, sym, ◌∙◌, Bool, true, false, ◌||◌,
  Option, none, some, List, [], ◌∷◌, ◌++◌, map, ltb, length, take, drop, ok, pos, arith, Bool-cases,
  inl, inr, is_empty,
}
use godoo_py.Value.{Value, int, str, tuple, nil, cons}
use godoo_py.Faults.{Checked}
use godoo_py.Client.Pages.{
  Row, requested_id, shown, is_reached, fetch_size, yield_page, last_id, after_page, iter_from,
  iter_search_read, Query, base_domain, page_query,
}
use godoo_py.Client.Pages.Queries.{asks, fetch_fields-asks}
use godoo_py.Client.Pages.Table.{
  Table, rows, IsTable, above, last_key, above_zero, above-above, last_key-ge, take-IsTable,
  drop-IsTable, above_last, last_id-rows,
}
use godoo_py.Client.Pages.Complete.{
  capped, remaining, IsOpen, yield_page_lem, length-take-le, length-drop_lt, fetch_size-pos,
  fetch_size-Fits, capped_last, capped_more,
}

rows-take : (k : ℕ) (t : Table) → rows (take k t) ≡ take k (rows t)
rows-take zero t = refl
rows-take (suc k) [] = refl
rows-take (suc k) ((n, row) ∷ t) = ap (λ l. row ∷ l) (rows-take k t)

rows-drop : (k : ℕ) (t : Table) → rows (drop k t) ≡ drop k (rows t)
rows-drop zero t = refl
rows-drop (suc k) [] = refl
rows-drop (suc k) ((n, row) ∷ t) = rows-drop k t

-- The pages are those of the table: what the loop needs of its requests
abbrev Pages : (Value → ℕ → Checked (List Row)) → Table → Type 0
Pages fetch table = (c k : ℕ) → 0 < k → fetch (int (pos c)) k ≡ ok (rows (take k (above c table)))

-- The server answers a request for the IDs above a number in the domain, in the order of the IDs and with
-- a limit, by the first rows of the table above the number. The table has the records of the domain
-- that the caller gave, with the fields that the caller wants and the ID.
abbrev pub Serves :
    (Query → Checked (List Row)) → Option (List Value) → Option (List String) → Table → Type 0
Serves search_read domain fields table =
    (q : Query) (c : ℕ)
    → q.domain
      ≡ base_domain domain ++ tuple (cons (str "id") (cons (str ">") (cons (int (pos c)) nil))) ∷ []
    → q.order ≡ "id"
    → asks fields q.fields ≡ true
    → 0 < q.limit
    → search_read q ≡ ok (rows (take q.limit (above c table)))

module _ (batch_size : ℕ) (keep : Bool) (limit : Option ℕ) where
  after_page_stop :
      (more : Value → ℕ → Checked (List Row)) (yielded y : ℕ) (page out : List Row)
      (returned : Bool)
      → is_empty page ≡ false
      → yield_page keep limit yielded page ≡ (out, y, returned)
      → (returned || ltb (length page) (fetch_size batch_size limit yielded)) ≡ true
      → after_page batch_size keep limit more yielded page ≡ ok out
  unfolding after_page
  after_page_stop more yielded y page out returned full e stop = rw (full, e, stop)

  after_page_more :
      (more : Value → ℕ → Checked (List Row)) (yielded y : ℕ) (page out others : List Row)
      (returned : Bool) (cursor : Value)
      → is_empty page ≡ false
      → yield_page keep limit yielded page ≡ (out, y, returned)
      → (returned || ltb (length page) (fetch_size batch_size limit yielded)) ≡ false
      → last_id page ≡ ok cursor
      → more cursor y ≡ ok others
      → after_page batch_size keep limit more yielded page ≡ ok (out ++ others)
  unfolding after_page
  after_page_more more yielded y page out others returned cursor full e stop c m =
      rw (full, e, stop, c, m)

is_empty-take : (n : ℕ) (row : Row) (l : List Row) → 0 < n → is_empty (take n (row ∷ l)) ≡ false
is_empty-take zero row l h = absurd (omega arith)
is_empty-take (suc n) row l h = refl

length-take_pos : (n : ℕ) (r : ℕ × Row) (t : Table) → 0 < n → 0 < length (take n (r ∷ t))
length-take_pos zero r t h = absurd (omega arith)
length-take_pos (suc n) r t h = omega arith

capped-nil : (limit : Option ℕ) → capped {A = Row} limit [] ≡ []
capped-nil none = refl
capped-nil (some zero) = refl
capped-nil (some (suc n)) = refl

module _ (fetch : Value → ℕ → Checked (List Row)) (batch_size : ℕ) (keep : Bool) (limit : Option ℕ)
    (table : Table) (positive : 0 < batch_size) (serves : Pages fetch table) where
  iter_from-table :
      (fuel c yielded : ℕ) (rest : Table)
      → IsTable c rest
      → above c table ≡ rest
      → length rest < fuel
      → IsOpen limit yielded
      → iter_from batch_size keep limit fetch fuel (int (pos c)) yielded
        ≡ ok (map (shown keep) (capped (remaining limit yielded) (rows rest)))
  unfolding iter_from
  iter_from-table zero c yielded rest sorted here enough begun = absurd (omega arith)
  iter_from-table (suc fuel) c yielded [] sorted here enough begun =
      let n = fetch_size batch_size limit yielded in
      let served : fetch (int (pos c)) n ≡ ok [] =
        serves c n (fetch_size-pos batch_size positive limit yielded begun)
        ∙ rw (here, rows-take n [], capped-nil (some n)) in
      rw (served, capped-nil (remaining limit yielded)) (unfold after_page in refl)
  iter_from-table (suc fuel) c yielded (r ∷ rest) sorted here enough begun =
      let n = fetch_size batch_size limit yielded in
      let pos_n : 0 < n = fetch_size-pos batch_size positive limit yielded begun in
      let page : List Row = take n (rows (r ∷ rest)) in
      let served : fetch (int (pos c)) n ≡ ok page =
        serves c n pos_n ∙ rw (here, rows-take n (r ∷ rest)) in
      let full : is_empty page ≡ false = is_empty-take n r.1 (rows rest) pos_n in
      let yields = yield_page_lem keep limit yielded page begun (
        fetch_size-Fits batch_size positive limit yielded (length page) begun
          (length-take-le n (rows (r ∷ rest)))) in
      rw served
        (elim (Bool-cases (is_reached limit (yielded + length page) || ltb (length page) n)) [
          | inl stop ↦
              after_page_stop batch_size keep limit (iter_from batch_size keep limit fetch fuel)
                yielded (yielded + length page) page (map (shown keep) page)
                (is_reached limit (yielded + length page)) full yields stop
              ∙ ap (λ l. ok (map (shown keep) l))
                  (capped_last batch_size positive limit yielded (rows (r ∷ rest)) begun stop)
          | inr go ↦
              let t : Table = r ∷ rest in
              let c' = last_key c (take n t) in
              let (begun', split) =
                capped_more batch_size positive limit yielded (rows t) begun go in
              let some_row : 0 < length (take n t) = length-take_pos n r rest pos_n in
              let cursor : last_id page ≡ ok (int (pos c')) =
                ap last_id (sym (rows-take n t))
                ∙ last_id-rows c (take n t) (take-IsTable c n t sorted) some_row in
              let above_here : above c' table ≡ drop n t =
                sym (above-above c c' table (last_key-ge c (take n t) (take-IsTable c n t sorted)))
                ∙ ap (above c') here
                ∙ above_last c n t sorted in
              let others =
                iter_from-table fuel c' (yielded + length page) (drop n t)
                  (drop-IsTable c n t sorted) above_here (omega (arith, length-drop_lt n t pos_n))
                  begun' in
              after_page_more batch_size keep limit (iter_from batch_size keep limit fetch fuel)
                yielded (yielded + length page) page (map (shown keep) page)
                (map (shown keep)
                  (capped (remaining limit (yielded + length page)) (rows (drop n t))))
                (is_reached limit (yielded + length page)) (int (pos c')) full yields go cursor
                others
              ∙ ap ok (
                  sym (
                    map-append (shown keep) page
                      (capped (remaining limit (yielded + length page)) (rows (drop n t))))
                  ∙ ap (map (shown keep)) (
                      ap (λ l. page ++ capped (remaining limit (yielded + length page)) l)
                        (rows-drop n t)
                      ∙ sym split))
        ])

-- Over a server that answers each request for the IDs above a number, in their order and with a limit, by
-- the first rows above it of a table whose IDs ascend, with a batch size and a limit, if one is given,
-- of at least 1, the generator yields every row once and in order, cut off at the limit, with the ID
-- left out exactly if the caller named fields without it; and one round more than there are rows is
-- enough.
pub iter_search_read-table :
    (search_read : Query → Checked (List Row)) (domain : Option (List Value))
    (fields : Option (List String)) (batch_size : ℕ) (limit : Option ℕ) (table : Table)
    → 0 < batch_size
    → IsOpen limit 0
    → IsTable 0 table
    → Serves search_read domain fields table
    → iter_search_read search_read domain fields batch_size limit (suc (length table))
      ≡ ok (map (shown (requested_id fields)) (capped limit (rows table)))
unfolding iter_search_read page_query
iter_search_read-table search_read domain fields batch_size limit table positive begun sorted
      serves =
    let pages : Pages (λ cursor size. search_read (page_query domain fields cursor size)) table =
      λ c k h.
        serves (page_query domain fields (int (pos c)) k) c refl refl (fetch_fields-asks fields)
          h in
    iter_from-table (λ cursor size. search_read (page_query domain fields cursor size)) batch_size
      (requested_id fields) limit table positive pages (suc (length table)) 0 0 table sorted
      (above_zero table sorted) (omega arith) begun
    ∙ ap (λ l. ok (map (shown (requested_id fields)) l)) (whole limit)
  where
    whole : (o : Option ℕ) → capped (remaining o 0) (rows table) ≡ capped o (rows table)
    whole none = refl
    whole (some n) = let e : n - 0 ≡ n = omega arith in rw e
