-- ===== src/Client.antt =====
-- client.py of godoo-client: the session, the safety guard, the RPC contexts and `call`.
mod State
pub mod Call
pub mod Guarded
pub mod Scoped
pub mod Context
pub mod Traces
pub mod Reads
pub mod Replies
pub mod Once
pub mod Counts
pub mod Crud
pub mod Refs
pub mod Pages
mod CrudTests
mod Tests
pub use State.*
