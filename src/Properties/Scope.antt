-- ===== src/Properties/Scope.antt =====
-- services/properties/scope.py of godoo-client: captured scopes and the reads under them.
pub mod Checks
pub mod Calls
pub mod Reads
pub mod Preflight
