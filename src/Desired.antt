-- ===== src/Desired.antt =====
-- The normalized Spotify values: package internal/desired.
pub mod State
pub mod Validation
pub mod Candidate
pub mod Witnesses
