-- ===== src/Gen/Consumer.antt =====
-- client/src/gen/consumer/protocol/consumer.ts: the messages of the consumer service, one module for each subject. A message is a record,
-- and its encoding is the JSON value that it is on the wire.
pub mod Status
pub mod Header
pub mod Labels
pub mod RecoveryLog
pub mod Shard
pub mod Messages
pub mod Errors
