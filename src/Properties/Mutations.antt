-- ===== src/Properties/Mutations.antt =====
-- `dispatch` of services/properties/mutations.py: workers that share one queue of payloads, as a
-- step relation over every order in which the event loop may run them.
pub mod Order
pub mod Finish
pub mod Progress
pub mod Cancel
mod Tests
use godoo_py.Base.{
  ℕ, zero, suc, min, ℤ, pos, String, ◌≡◌, Bool, true, false, not, Option, none, some, List, [], ◌∷◌,
  ◌++◌, int_eq, length, elem, select, ok, err, if◌then◌else◌, ◌>>=◌,
}
use godoo_py.Base.Dict.{Dict, insert, lookup, keys}
use godoo_py.Value.{Value}
use godoo_py.Faults.{property_value, key_error, Checked}
use godoo_py.Properties.Receipts.{Receipt, receipt_of, unknown_write}

abbrev pub Payload : Type 0
Payload = Dict String Value

-- A worker before it asks the queue, inside `write_one`, or at its end.
pub data Worker : Type 0 where
  ready : Worker
  writing : ℤ → Worker
  finished : Worker

-- The variables that the workers share. `started` has the latest record first.
pub record Batch : Type 0 where
  pub queue : Dict ℤ Payload
  pub workers : List Worker
  pub started : List ℤ
  pub receipts : Dict ℤ Receipt

abbrev pub ready_workers : ℕ → List Worker
ready_workers zero = []
ready_workers (suc n) = ready ∷ ready_workers n

-- Before the first task runs: `min(concurrency, len(payloads))` of them.
unfoldable pub start : Dict ℤ Payload → ℕ → Batch
start payloads concurrency = record {
  queue = payloads;
  workers = ready_workers (min concurrency (length payloads));
  started = [];
  receipts = [];
}

-- One worker moves: it takes the next payload, its write is answered, or it finds the queue empty.
pub data Step (b c : Batch) : Type 0 where
  take :
      (l r : List Worker) (rid : ℤ) (payload : Payload) (rest : Dict ℤ Payload)
      → b.workers ≡ l ++ ready ∷ r
      → b.queue ≡ (rid, payload) ∷ rest
      → c ≡ record {
        queue = rest;
        workers = l ++ writing rid ∷ r;
        started = rid ∷ b.started;
        receipts = b.receipts;
      }
      → Step b c
  answer :
      (l r : List Worker) (rid : ℤ) (outcome : Checked Value)
      → b.workers ≡ l ++ writing rid ∷ r
      → c ≡ record b {
        workers = l ++ ready ∷ r;
        receipts = insert rid (receipt_of rid outcome) b.receipts;
      }
      → Step b c
  stop :
      (l r : List Worker)
      → b.workers ≡ l ++ ready ∷ r
      → b.queue ≡ []
      → c ≡ record b { workers = l ++ finished ∷ r }
      → Step b c

pub data Reach (a : Batch) : Batch → Type 0 where
  here : Reach a a
  next : {b c : Batch} → Reach a b → Step b c → Reach a c

-- `asyncio.gather` returns once every worker has ended.
abbrev pub is_finished : List Worker → Bool
is_finished [] = true
is_finished (finished ∷ ws) = is_finished ws
is_finished (_ ∷ ws) = false

-- `[receipts[rid] for rid in payloads]`
unfoldable pub collect : Dict ℤ Receipt → List ℤ → Checked (List Receipt)
collect receipts [] = ok []
collect receipts (rid ∷ rids) = elim (lookup rid receipts) [
  | none ↦ err key_error
  | some receipt ↦ elim (collect receipts rids) [ err e ↦ err e | ok rest ↦ ok (receipt ∷ rest) ]
]

-- `receipts.get(rid, PropertyReceipt(rid, "unknown", …))`
unfoldable pub observed : Dict ℤ Receipt → ℤ → Receipt
observed receipts rid = elim (lookup rid receipts) [ none ↦ unknown_write rid | some r ↦ r ]

abbrev pub observe_all : Dict ℤ Receipt → List ℤ → List Receipt
observe_all receipts [] = []
observe_all receipts (rid ∷ rids) = observed receipts rid ∷ observe_all receipts rids

-- The two lists of `PropertyBatchCancelledError`, when the batch is cancelled at this point.
unfoldable pub cancelled : Dict ℤ Payload → Batch → List Receipt × List ℤ
unfolding observed
cancelled payloads b = (
  observe_all b.receipts (select (λ rid. elem rid b.started) (keys payloads)),
  select (λ rid. not (elem rid b.started)) (keys payloads),
)

-- The workers start once `concurrency` has been tested.
unfoldable pub dispatch_from : Dict ℤ Payload → ℤ → Checked Batch
unfolding start
dispatch_from payloads (pos (suc n)) = ok (start payloads (suc n))
dispatch_from payloads concurrency = err property_value
