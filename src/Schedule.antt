-- ===== src/Schedule.antt =====
-- The stages of client/src/streams.ts as they run: in a browser the body, the queues of the stages
-- and the reader take turns in an order that no code of the client fixes. `Streams` tells what a
-- pipe delivers in one turn; here every move is a step of its own, and any order may come about.
pub mod Cuts
pub mod System
pub mod Body
pub mod Through
pub mod Runs
pub mod Reader
pub mod Pipes
