-- ===== src/Youtube.antt =====
-- The YouTube resolver: internal/acquisition/youtube.go.
pub mod Strings
pub mod Tokens
pub mod Similarity
pub mod Rank
pub mod Inspect
pub mod Witnesses
