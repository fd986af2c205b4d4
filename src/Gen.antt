-- ===== src/Gen.antt =====
-- client/src/gen: the types of the REST services, as the client sees them.
pub mod Broker
pub mod Consumer
