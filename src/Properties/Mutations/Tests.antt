-- ===== src/Properties/Mutations/Tests.antt =====
-- A batch of two writes by two workers, answered in the other order, and a cancelled one.
use godoo_py.Base.{
  ◌≤◌, ◌<◌, ◌↔◌, ◌||◌, not, if◌then◌else◌, ℤ, pos, string_eq, int_eq, ◌≡◌, refl, true, false, List,
  [], ◌∷◌, ok, err, arith,
}
use godoo_py.Base.Dict.{Dict, keys, insert}
use godoo_py.Value.{Value, bool}
use godoo_py.Faults.{Fault, timeout, property_value, is_network, is_odoo, Checked}
use godoo_py.Properties.Receipts.{
  Receipt, receipt_of, require_acknowledged, receipt_of_outcomes, acknowledged, failed, unknown,
}
use godoo_py.Properties.Mutations.{
  Payload, Worker, ready, writing, finished, Batch, start, Step, take, answer, stop, Reach, here,
  next, collect, is_finished, cancelled, observe_all, dispatch_from,
}
use godoo_py.Properties.Mutations.Order.{in_flight, in_flight-le-concurrency}
use godoo_py.Properties.Mutations.Finish.{record_ids, collect-finished}
use godoo_py.Properties.Mutations.Progress.{work, dispatch_progress}
use godoo_py.Properties.Mutations.Cancel.{cancelled-partition}

abbrev payloads : Dict ℤ Payload
payloads = (pos 5, []) ∷ (pos 6, []) ∷ []

abbrev batch : Dict ℤ Payload → List Worker → List ℤ → Dict ℤ Receipt → Batch
batch queue workers started receipts = record {
  queue = queue;
  workers = workers;
  started = started;
  receipts = receipts;
}

abbrev one_started : Batch
one_started = batch ((pos 6, []) ∷ []) (writing (pos 5) ∷ ready ∷ []) (pos 5 ∷ []) []

abbrev both_started : Batch
both_started = batch [] (writing (pos 5) ∷ writing (pos 6) ∷ []) (pos 6 ∷ pos 5 ∷ []) []

abbrev second_receipt : Dict ℤ Receipt
second_receipt = insert (pos 6) (receipt_of (pos 6) (ok (bool true))) []

abbrev both_receipts : Dict ℤ Receipt
both_receipts = insert (pos 5) (receipt_of (pos 5) (err timeout)) second_receipt

abbrev all_ended : Batch
all_ended = batch [] (finished ∷ finished ∷ []) (pos 6 ∷ pos 5 ∷ []) both_receipts

first_step : Reach (start payloads 2) one_started
unfolding start
first_step = next here (take [] (ready ∷ []) (pos 5) [] ((pos 6, []) ∷ []) refl refl refl)

second_step : Reach (start payloads 2) both_started
second_step = next first_step (take (writing (pos 5) ∷ []) [] (pos 6) [] [] refl refl refl)

third_step :
    Reach
      (start payloads 2)
      (batch [] (writing (pos 5) ∷ ready ∷ []) (pos 6 ∷ pos 5 ∷ []) second_receipt)
third_step = next second_step (answer (writing (pos 5) ∷ []) [] (pos 6) (ok (bool true)) refl refl)

fourth_step :
    Reach (start payloads 2) (batch [] (ready ∷ ready ∷ []) (pos 6 ∷ pos 5 ∷ []) both_receipts)
fourth_step = next third_step (answer [] (ready ∷ []) (pos 5) (err timeout) refl refl)

fifth_step :
    Reach (start payloads 2) (batch [] (finished ∷ ready ∷ []) (pos 6 ∷ pos 5 ∷ []) both_receipts)
fifth_step = next fourth_step (stop [] (ready ∷ []) refl refl refl)

whole_run : Reach (start payloads 2) all_ended
whole_run = next fifth_step (stop (finished ∷ []) [] refl refl refl)

in_flight-le-concurrency_example : in_flight both_started.workers ≤ 2
in_flight-le-concurrency_example = in_flight-le-concurrency payloads 2 both_started second_step

collect-finished_example :
    (rs : List Receipt) × (collect both_receipts (keys payloads) ≡ ok rs)
    × (record_ids rs ≡ keys payloads)
collect-finished_example = collect-finished payloads 2 all_ended (omega arith) whole_run refl

cancelled-partition_example :
    ((cancelled payloads one_started).0 ≡ observe_all [] (pos 5 ∷ []))
    × ((cancelled payloads one_started).1 ≡ pos 6 ∷ [])
cancelled-partition_example = cancelled-partition payloads 2 one_started refl first_step

no_workers : dispatch_from payloads (pos 0) ≡ err property_value
unfolding dispatch_from
no_workers = refl

dispatch_progress_example :
    ((c : Batch) → Step one_started c → work c < work one_started)
    × (is_finished one_started.workers ≡ false → (c : Batch) × Step one_started c)
dispatch_progress_example = dispatch_progress one_started

receipt_of_outcomes_example :
    ((require_acknowledged (receipt_of (pos 5) (err timeout)) ≡ ok tt)
      ↔ (◌≡◌ {A = Checked Value} (err timeout) (ok (bool true))))
    × (((receipt_of (pos 5) (err timeout)).status ≡ acknowledged)
        ↔ (◌≡◌ {A = Checked Value} (err timeout) (ok (bool true))))
    × ((receipt_of (pos 5) (err timeout)).record_id ≡ pos 5)
    × ((e : Fault)
        → (receipt_of (pos 5) (err e)).status
          ≡ (if is_network e || not (is_odoo e) then unknown else failed))
receipt_of_outcomes_example = receipt_of_outcomes (pos 5) (err timeout)
