-- ===== src/Properties/Codec.antt =====
-- services/properties/codec.py: parsing of definitions, and values to and from the wire.
pub mod Values
pub mod Parse
pub mod Shape
pub mod ParseSound
pub mod ParseComplete
pub mod Records
pub mod Legacy
pub mod Preflight
pub mod Complete
pub mod PatchPreflight
pub mod RoundTrip
