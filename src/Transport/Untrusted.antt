-- ===== src/Transport/Untrusted.antt =====
-- The other end is not trusted: what each half does when the peer has written anything at all into the
-- shared indices and the data buffer.
pub mod Recv
pub mod Send
pub mod Overrun
