-- ===== src/Lib.antt =====
-- Verification of offbeat, a daemon that keeps an offline copy of a Spotify library: its acquisition
-- queue, its choice of YouTube videos, its control protocol, its Spotify adapter and its playlist files.
--
-- The daemon owns one SQLite database. A user or a batch queues acquisition work for tracks of the
-- desired state (internal/desired); a worker claims it, asks the resolver for a video where the work
-- names no URL, and completes, fails or leaves it unresolved. The resolver
-- (internal/acquisition/youtube.go) ranks the results of one search and selects a video or says why
-- not. An evaluation corpus (internal/acquisition/evaluation.go) replays recorded searches through
-- the same resolver and compares its choices with human labels.
--
-- Files:
--   Prelude         tests, lists, texts as lists of code points with their UTF-8 length, results
--   Desired         internal/desired/state.go, validation.go, and stateFromCandidate and summarizeCandidate of
--                   internal/db/desired_state.go
--   Db.Schema, Tx, Query   the tables and constraints of internal/db/migrations, a transaction
--                   (BeginTx, statements, Commit or Rollback) and the SQL statements over lists
--   Db.Work, Batch, Complete   internal/db/acquisition_work.go, and RegisterManagedTrack of
--                   internal/db/managed_tracks.go
--   Db.Mapping      internal/db/manual_youtube_mappings.go, mapping_revision.go, select_youtube.go
--   Db.Invariant, Keeps, Runs   what holds between transactions, and runs of requests
--   Youtube         internal/acquisition/youtube.go: Strings, Tokens, Similarity, Rank, Inspect
--   Evaluation      internal/acquisition/evaluation.go
--   Ipc             internal/ipc: Frame and Serve (protocol.go), Request (UnmarshalJSON), Validate
--                   (acquisition.go)
--   Adapter         internal/app/adapter.go: Json, Candidate and Parse are its messages; Session is
--                   the state under adapterMu, Session.Steps its interleavings
--   Playlists       internal/app/playlists.go: the names of playlist files
--
-- A function keeps its Go name in snake case; a handler of the database takes a Driver, which says
-- whether the transaction opens and commits and whether what follows a statement that commits by
-- itself is answered, and the times that the clock returns. An error is a value of DbError; its text
-- is left out. Numbers are natural numbers: the code keeps its ints far
-- below 2^63 and never negative, and a duration of a search result is in microseconds instead of a
-- float of seconds. The tables of package unicode, encoding/json, net/url, SHA-256 and the folding of
-- golang.org/x/text are parameters. Loops are structural recursion, but for two on fuel: ReadFrame,
-- with one round more than there are bytes, since a round that does not return takes a byte; and
-- the search for a free file name, with one round more than there are used names, since each
-- round that fails meets another used name.
--
-- The adapter's goroutines are sequences of actions. An action is one section under adapterMu or one
-- effect that a goroutine owes after it: a send, a cancellation, a close.
--
-- Not modelled: processes, sockets, timers, files and HTTP (retriever, managed files, artwork, tagging,
-- LAN sync), which are input and output; the acquisition worker and the dispatch of internal/app, the
-- commands and the configuration; reconciling the desired state; context cancellation in the store.
pub mod Prelude
pub mod Desired
pub mod Db
pub mod Youtube
pub mod Evaluation
pub mod Adapter
pub mod Ipc
pub mod Playlists
