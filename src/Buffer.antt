-- ===== src/Buffer.antt =====
-- internal/buffer: the messages to and from the kernel, as sequences of bytes.
pub mod Outgoing
pub mod Incoming
pub mod Tests
