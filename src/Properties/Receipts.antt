-- ===== src/Properties/Receipts.antt =====
-- `PropertyReceipt`, and `write_one` and `require_acknowledged` of services/properties/mutations.py.
use godoo_py.Base.{
  ◌≡◌, ◌↔◌, ◌||◌, not, arith, refl, ℤ, Option, none, some, true, false, ok, err, if◌then◌else◌,
}
use godoo_py.Value.{Value, bool}
use godoo_py.Faults.{Fault, rpc, write_unknown, is_network, is_odoo, Checked}

pub data Status : Type 0 where
  acknowledged failed unknown : Status

pub record Receipt : Type 0 where
  pub record_id : ℤ
  pub status : Status
  pub error : Option Fault

abbrev pub unknown_write : ℤ → Receipt
unknown_write rid = record { record_id = rid; status = unknown; error = some (write_unknown rid) }

abbrev pub failed_write : ℤ → Fault → Receipt
failed_write rid e = record { record_id = rid; status = failed; error = some e }

-- `write_one`, from what the scoped call of `write` returned or raised
unfoldable pub receipt_of : ℤ → Checked Value → Receipt
receipt_of rid (err e) =
    if is_network e
    then unknown_write rid
    else if is_odoo e
    then failed_write rid e
    else unknown_write rid
receipt_of rid (ok (bool true)) = record { record_id = rid; status = acknowledged; error = none }
receipt_of rid (ok (bool false)) = failed_write rid rpc
receipt_of rid (ok v) = unknown_write rid

unfoldable pub require_acknowledged : Receipt → Checked (Unit {0})
require_acknowledged receipt = elim receipt.error [ none ↦ ok tt | some e ↦ err e ]

-- A write counts as done, and `require_acknowledged` lets it pass, exactly if the server answered
-- `True`; a receipt is of the record that was written; and an exception leaves it open whether the
-- server saw the write if it is one of the network or none of Odoo's, and else is a failure.
pub receipt_of_outcomes :
    (rid : ℤ) (outcome : Checked Value)
    → ((require_acknowledged (receipt_of rid outcome) ≡ ok tt) ↔ (outcome ≡ ok (bool true)))
      × (((receipt_of rid outcome).status ≡ acknowledged) ↔ (outcome ≡ ok (bool true)))
      × ((receipt_of rid outcome).record_id ≡ rid)
      × ((e : Fault)
          → (receipt_of rid (err e)).status
            ≡ (if is_network e || not (is_odoo e) then unknown else failed))
unfolding receipt_of require_acknowledged
receipt_of_outcomes rid (err e) = (ground arith, ground arith, ground arith, λ x. ground arith)
receipt_of_outcomes rid (ok (bool true)) = (ground arith, ground arith, refl, λ x. ground arith)
receipt_of_outcomes rid (ok (bool false)) = (ground arith, ground arith, refl, λ x. ground arith)
receipt_of_outcomes rid (ok v) = (ground arith, ground arith, refl, λ x. ground arith)
