-- ===== src/Encoding.antt =====
-- src/encoding: the OPC UA binary encoding of the built-in types, and its laws.
pub mod State
pub mod Le
pub mod Types
pub mod Reader
pub mod Writer
pub mod Calculus
pub mod Text
pub mod NodeIds
pub mod Composite
pub mod Extension
pub mod Format
pub mod Words
pub mod Strings
pub mod Identifiers
pub mod Expanded
pub mod Localized
pub mod Variant
pub mod RoundTrip
mod Ensures
pub mod Confined
mod Tests
