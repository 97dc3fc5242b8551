-- ===== src/FdPassing.antt =====
-- src/fd_passing: the connection table, and the event loop on passed descriptors.
pub mod Batch
pub mod Conn
pub mod Server
pub mod Write
pub mod Evented
pub mod Control
pub mod Drain
pub mod Events
