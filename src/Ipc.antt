-- ===== src/Ipc.antt =====
-- The control protocol: package internal/ipc.
pub mod Frame
pub mod Validate
pub mod Request
pub mod Serve
pub mod Witnesses
