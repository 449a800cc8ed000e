-- ===== src/IcMsg.antt =====
-- src/lib.rs: the channel with its bonding. The environment's part is data: what `select` answers in each
-- round of the waiting loop, what the other core does to the shared memory meanwhile, and what each
-- poll of the waiter answers.
pub mod Defs
pub mod Bonding
pub mod Recv
pub mod Methods
pub mod Duplex
pub mod Handshake
mod Tests
mod HandshakeTests
