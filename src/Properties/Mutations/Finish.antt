-- ===== src/Properties/Mutations/Finish.antt =====
-- When all workers have ended, each record has its own receipt, in the order of the payloads.
use godoo_py.Base.{
  ℕ, zero, suc, min, ◌<◌, ℤ, ◌≡◌, refl, ap, sym, ◌∙◌, Bool, true, false, ◌||◌, some, List, [], ◌∷◌,
  ◌++◌, ◌==◌, int_eq, length, elem, ok, arith, Bool-cases, inl, inr, eq→path, eq_refl,
}
use godoo_py.Base.Dict.{Dict, lookup, contains, keys, lookup-insert, contains-insert}
use godoo_py.Value.{Value}
use godoo_py.Faults.{Checked}
use godoo_py.Properties.Receipts.{Receipt, receipt_of}
use godoo_py.Properties.Mutations.{
  Payload, Worker, ready, writing, finished, Batch, ready_workers, start, Step, take, answer, stop,
  Reach, here, next, is_finished, collect,
}
use godoo_py.Properties.Mutations.Order.{
  reverse_onto, started-in_order, Reach-length, length-ready_workers,
}

abbrev is_writing : ℤ → List Worker → Bool
is_writing rid [] = false
is_writing rid (writing x ∷ ws) = rid == x || is_writing rid ws
is_writing rid (_ ∷ ws) = is_writing rid ws

abbrev has_finished : List Worker → Bool
has_finished [] = false
has_finished (finished ∷ ws) = true
has_finished (_ ∷ ws) = has_finished ws

is_writing-append :
    (rid : ℤ) (l r : List Worker) → is_writing rid (l ++ r) ≡ (is_writing rid l || is_writing rid r)
is_writing-append rid [] r = refl
is_writing-append rid (ready ∷ l) r = is_writing-append rid l r
is_writing-append rid (writing x ∷ l) r = ground (arith, is_writing-append rid l r)
is_writing-append rid (finished ∷ l) r = is_writing-append rid l r

has_finished-append :
    (l r : List Worker) → has_finished (l ++ r) ≡ (has_finished l || has_finished r)
has_finished-append [] r = refl
has_finished-append (ready ∷ l) r = has_finished-append l r
has_finished-append (writing x ∷ l) r = has_finished-append l r
has_finished-append (finished ∷ l) r = refl

-- A record that has been started is being written, or has its receipt.
abbrev IsTracked : ℤ → Batch → Type 0
IsTracked rid b =
    elem rid b.started ≡ true → (contains rid b.receipts || is_writing rid b.workers) ≡ true

-- The receipt under a record's ID is that record's.
abbrev IsOwn : ℤ → Batch → Type 0
IsOwn rid b = (r : Receipt) → lookup rid b.receipts ≡ some r → r.record_id ≡ rid

-- A worker ends only when the queue is empty.
abbrev IsDrained : Batch → Type 0
IsDrained b = has_finished b.workers ≡ true → b.queue ≡ []

Step-IsTracked : (rid : ℤ) {b c : Batch} → Step b c → IsTracked rid b → IsTracked rid c
Step-IsTracked rid {b} (take l r x payload rest eb eq ec) h = rw ec (
    ground (
      arith,
      ap (is_writing rid) eb,
      is_writing-append rid l (ready ∷ r),
      is_writing-append rid l (writing x ∷ r),
    ))
Step-IsTracked rid {b} (answer l r x outcome eb ec) h = rw ec (
    ground (
      arith,
      ap (is_writing rid) eb,
      is_writing-append rid l (ready ∷ r),
      is_writing-append rid l (writing x ∷ r),
      contains-insert rid x (receipt_of x outcome) b.receipts,
    ))
Step-IsTracked rid {b} (stop l r eb eq ec) h = rw ec (
    ground (
      arith,
      ap (is_writing rid) eb,
      is_writing-append rid l (ready ∷ r),
      is_writing-append rid l (finished ∷ r),
    ))

receipt_of-own : (rid : ℤ) (outcome : Checked Value) → (receipt_of rid outcome).record_id ≡ rid
unfolding receipt_of
receipt_of-own rid outcome = ground arith

Step-IsOwn : (rid : ℤ) {b c : Batch} → Step b c → IsOwn rid b → IsOwn rid c
Step-IsOwn rid (take l r x payload rest eb eq ec) h = rw ec h
Step-IsOwn rid (stop l r eb eq ec) h = rw ec h
Step-IsOwn rid {b} (answer l r x outcome eb ec) h = rw ec (λ receipt found.
    elim (Bool-cases (rid == x)) [
      | inl e ↦
          let same : receipt_of x outcome ≡ receipt =
            ground (arith, lookup-insert rid x (receipt_of x outcome) b.receipts) in
          rw (← same) (receipt_of-own x outcome ∙ sym (eq→path rid x e))
      | inr e ↦ h receipt (ground (arith, lookup-insert rid x (receipt_of x outcome) b.receipts))
    ])

Step-IsDrained : {b c : Batch} → Step b c → IsDrained b → IsDrained c
Step-IsDrained {b} (take l r x payload rest eb eq ec) h = rw ec (
    ground (
      arith,
      ap has_finished eb,
      has_finished-append l (ready ∷ r),
      has_finished-append l (writing x ∷ r),
    ))
Step-IsDrained {b} (answer l r x outcome eb ec) h = rw ec (
    ground (
      arith,
      ap has_finished eb,
      has_finished-append l (ready ∷ r),
      has_finished-append l (writing x ∷ r),
    ))
Step-IsDrained {b} (stop l r eb eq ec) h = rw ec (λ _. eq)

has_finished-ready_workers : (n : ℕ) → has_finished (ready_workers n) ≡ false
has_finished-ready_workers zero = refl
has_finished-ready_workers (suc n) = has_finished-ready_workers n

module _ (payloads : Dict ℤ Payload) (concurrency : ℕ) where
  Reach-IsTracked : (rid : ℤ) {b : Batch} → Reach (start payloads concurrency) b → IsTracked rid b
  unfolding start
  Reach-IsTracked rid here = λ h. absurd (ground arith)
  Reach-IsTracked rid (next r s) = Step-IsTracked rid s (Reach-IsTracked rid r)

  Reach-IsOwn : (rid : ℤ) {b : Batch} → Reach (start payloads concurrency) b → IsOwn rid b
  unfolding start
  Reach-IsOwn rid here = λ r h. absurd (ground arith)
  Reach-IsOwn rid (next r s) = Step-IsOwn rid s (Reach-IsOwn rid r)

  Reach-IsDrained : {b : Batch} → Reach (start payloads concurrency) b → IsDrained b
  unfolding start
  Reach-IsDrained here =
      λ h. absurd (ground (arith, has_finished-ready_workers (min concurrency (length payloads))))
  Reach-IsDrained (next r s) = Step-IsDrained s (Reach-IsDrained r)

-- A list of ended workers writes nothing, and one of them has seen the empty queue.
is_finished_quiet : (rid : ℤ) (ws : List Worker) → is_finished ws ≡ true → is_writing rid ws ≡ false
is_finished_quiet rid [] h = refl
is_finished_quiet rid (finished ∷ ws) h = is_finished_quiet rid ws h
is_finished_quiet rid (ready ∷ ws) h = cc
is_finished_quiet rid (writing x ∷ ws) h = cc

is_finished_seen :
    (ws : List Worker) → is_finished ws ≡ true → 0 < length ws → has_finished ws ≡ true
is_finished_seen [] h p = absurd (omega arith)
is_finished_seen (finished ∷ ws) h p = refl
is_finished_seen (ready ∷ ws) h p = cc
is_finished_seen (writing x ∷ ws) h p = cc

-- The receipts of the started records, in order
pub elem-reverse_onto :
    (rid : ℤ) (xs ys : List ℤ) → elem rid (reverse_onto xs ys) ≡ (elem rid xs || elem rid ys)
elem-reverse_onto rid [] ys = refl
elem-reverse_onto rid (x ∷ xs) ys = ground (arith, elem-reverse_onto rid xs (x ∷ ys))

abbrev pub record_ids : List Receipt → List ℤ
record_ids [] = []
record_ids (r ∷ rs) = r.record_id ∷ record_ids rs

contains-lookup-some :
    (rid : ℤ) (d : Dict ℤ Receipt) → contains rid d ≡ true → (r : Receipt) × (lookup rid d ≡ some r)
contains-lookup-some rid [] h = absurd (ground arith)
contains-lookup-some rid ((x, r) ∷ d) h = elim (Bool-cases (rid == x)) [
  | inl e ↦ (r, rw e)
  | inr e ↦ let (r', found) = contains-lookup-some rid d (ground arith) in (r', rw e found)
]

collect_total :
    (receipts : Dict ℤ Receipt) (rids : List ℤ)
    → ((rid : ℤ) → elem rid rids ≡ true → contains rid receipts ≡ true)
    → ((rid : ℤ) (r : Receipt) → lookup rid receipts ≡ some r → r.record_id ≡ rid)
    → (rs : List Receipt) × (collect receipts rids ≡ ok rs) × (record_ids rs ≡ rids)
unfolding collect
collect_total receipts [] h own = ([], refl, refl)
collect_total receipts (rid ∷ rids) h own =
    let (r, found) = contains-lookup-some rid receipts (h rid (ground (arith, eq_refl rid))) in
    let (rs, rest, ids) = collect_total receipts rids (λ x e. h x (ground arith)) own in
    (r ∷ rs, ground arith, ground (arith, own rid r found))

drained_queue :
    (p : ℤ × Payload) (ps : Dict ℤ Payload) (concurrency : ℕ) (b : Batch)
    → 0 < concurrency
    → Reach (start (p ∷ ps) concurrency) b
    → is_finished b.workers ≡ true
    → b.queue ≡ []
unfolding start
drained_queue p ps concurrency b pos run done = Reach-IsDrained (p ∷ ps) concurrency run (
    is_finished_seen b.workers done
      (omega (arith, Reach-length run, length-ready_workers (min concurrency (length (p ∷ ps))))))

-- Once all workers have ended, `dispatch` returns one receipt for each payload, each of its own record
-- and in the order of the payloads, however the writes were interleaved and whatever they gave.
pub collect-finished :
    (payloads : Dict ℤ Payload) (concurrency : ℕ) (b : Batch)
    → 0 < concurrency
    → Reach (start payloads concurrency) b
    → is_finished b.workers ≡ true
    → (rs : List Receipt) × (collect b.receipts (keys payloads) ≡ ok rs)
      × (record_ids rs ≡ keys payloads)
collect-finished [] concurrency b positive run done = unfold collect in ([], refl, refl)
collect-finished (p ∷ ps) concurrency b positive run done =
    let empty = drained_queue p ps concurrency b positive run done in
    let order = started-in_order (p ∷ ps) concurrency b run in
    collect_total b.receipts (keys (p ∷ ps))
      (λ rid listed. ground (
        arith,
        empty,
        order,
        elem-reverse_onto rid b.started (keys b.queue),
        Reach-IsTracked (p ∷ ps) concurrency rid run,
        is_finished_quiet rid b.workers done,
      ))
      (λ rid. Reach-IsOwn (p ∷ ps) concurrency rid run)
