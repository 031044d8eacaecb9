-- ===== src/Udt/Laws.antt =====
-- What holds of the schema parser.
pub mod Lengths
pub mod Termination
pub mod Layout
pub mod Strings
pub mod Members
pub mod RoundTrip
pub mod Packing
pub mod Codes
pub mod Announced
