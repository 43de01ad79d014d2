-- ===== src/Properties.antt =====
-- services/properties of godoo-client: definition-aware custom fields.
pub mod Types
pub mod Codec
pub mod Receipts
pub mod Mutations
pub mod Scope
pub mod Functions
pub mod Patches
pub mod Targets
pub mod Leads
pub mod Writes
pub mod Binding
mod Tests
mod PatchTests
mod BindingTests
