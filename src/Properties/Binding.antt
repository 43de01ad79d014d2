-- ===== src/Properties/Binding.antt =====
-- services/properties/binding.py: aliases of properties and of their options.
pub mod Declare
pub mod Aliases
pub mod Rows
pub mod Calls
pub mod Select
pub mod Bound
pub mod Drift
pub mod RoundTrip
pub mod Sends
