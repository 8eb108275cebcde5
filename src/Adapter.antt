-- ===== src/Adapter.antt =====
-- internal/app/adapter.go: the daemon's side of the Spotify adapter.
pub mod Json
pub mod Candidate
pub mod Parse
pub mod Session
pub mod Witnesses
