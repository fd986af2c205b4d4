-- ===== src/Json/RoundTrip.antt =====
-- `JSON.parse` against `JSON.stringify`, on which client/src relies at both ends of the network.
pub mod Strings
pub mod Numbers
pub mod Values
pub mod Nested
pub mod Whole
pub mod Lines
pub mod Encoded
