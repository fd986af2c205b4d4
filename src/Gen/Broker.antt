-- ===== src/Gen/Broker.antt =====
-- client/src/gen/broker/protocol/broker.ts: the messages of the broker service, one module for each subject. A message is a record,
-- and its encoding is the JSON value that it is on the wire.
pub mod Status
pub mod Header
pub mod Labels
pub mod Fragment
pub mod Journal
pub mod Messages
pub mod Errors
pub mod Printed
