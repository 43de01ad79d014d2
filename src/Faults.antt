-- ===== src/Faults.antt =====
-- The exceptions of errors.py and services/properties/types.py by their classes, with the data that
-- the code reads. The texts of the messages are not modelled;
-- what the constructor raises on ill-formed data is in Transport.
use godoo_py.Base.{ℤ, Bool, true, false, Result}

pub data Fault : Type 0 where
  rpc auth network timeout validation access missing safety : Fault
  property_lookup property_value property_scope property_drift : Fault
  write_unknown : ℤ → Fault
  -- KeyError, TypeError, AttributeError, ValueError, AssertionError; and any other `Exception`
  key_error type_error attribute_error value_error assertion_error other : Fault

-- `isinstance(exc, OdooNetworkError)`: timeouts and unknown writes are subclasses.
abbrev pub is_network : Fault → Bool
is_network network = true
is_network timeout = true
is_network (write_unknown _) = true
is_network _ = false

-- `isinstance(exc, OdooError)`
abbrev pub is_odoo : Fault → Bool
is_odoo key_error = false
is_odoo type_error = false
is_odoo attribute_error = false
is_odoo value_error = false
is_odoo assertion_error = false
is_odoo other = false
is_odoo _ = true

abbrev pub Checked : Type 0 → Type 0
Checked A = Result Fault A
