-- ===== src/Transport.antt =====
-- src/transport.rs: the low-level transport. `Region` has the data in shared memory, `Cursor` the index
-- arithmetic, `Sender` and `Receiver` the two halves, and their children the proofs about each.
-- `Queue` is what the transport promises, `Stream` how a ring holds a queue, and `Refine` joins them.
pub mod Region
pub mod Cursor
pub mod Sender
pub mod Receiver
pub mod Queue
pub mod Stream
pub mod Refine
pub mod Calls
pub mod Untrusted
pub mod Truncation
pub mod Reference
pub mod Layout
pub mod IcMsgTransport
pub mod Fixtures
mod Tests
mod ReferenceTests
