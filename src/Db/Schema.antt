-- ===== src/Db/Schema.antt =====
-- The tables that acquisition reads and writes, as internal/db/migrations declare them.
-- A table is the list of its rows in the order of its rowid; NULL is `none`.
use offbeat.Prelude.{
  ℕ, Text, Bool, true, false, not, Option, none, some, List, [], ◌∷◌, ◌&&◌, ◌||◌, text_eq, is_empty,
}
use offbeat.Desired.State.{Track}

pub data SourceKind : Type 0 where
  direct youtube : SourceKind

pub data WorkState : Type 0 where
  pending running unresolved failed complete : WorkState

pub record WorkRow : Type 0 where
  pub id : ℕ
  pub track_uri : Text
  pub source_kind : SourceKind
  pub source_url : Option Text
  pub state : WorkState
  pub error : Text
  pub created_at : Text
  pub updated_at : Text

pub record ManagedRow : Type 0 where
  pub track_uri : Text
  pub relative_path : Text
  pub tag_state : Text
  pub tag_error : Text
  pub artwork_state : Text
  pub artwork_error : Text
  pub tag_fingerprint : Text
  pub artwork_fingerprint : Text
  pub file_sha256 : Text
  pub refresh_intent : Text

pub record MappingRow : Type 0 where
  pub track_uri : Text
  pub video_id : Text
  pub created_at : Text
  pub updated_at : Text

pub record RevisionRow : Type 0 where
  pub track_uri : Text
  pub revision : ℕ

-- `next_id` is one more than the largest id ever given (AUTOINCREMENT).
pub record Db : Type 0 where
  pub tracks : List Track
  pub work : List WorkRow
  pub next_id : ℕ
  pub managed : List ManagedRow
  pub mappings : List MappingRow
  pub mapping_revisions : List RevisionRow

-- state IN ('pending', 'running')
abbrev pub is_active : WorkState → Bool
is_active pending = true
is_active running = true
is_active _ = false

abbrev pub state_eq : WorkState → WorkState → Bool
state_eq pending pending = true
state_eq running running = true
state_eq unresolved unresolved = true
state_eq failed failed = true
state_eq complete complete = true
state_eq _ _ = false

abbrev pub kind_eq : SourceKind → SourceKind → Bool
kind_eq direct direct = true
kind_eq youtube youtube = true
kind_eq _ _ = false

-- The CHECK constraints of a row of acquisition_work.
unfoldable pub check_row : WorkRow → Bool
check_row r =
    not (is_empty r.track_uri)
    && (elim r.source_url [ none ↦ kind_eq r.source_kind youtube | some u ↦ not (is_empty u) ])

-- Whether an active row has the track.
unfoldable pub has_active : Text → List WorkRow → Bool
has_active u [] = false
has_active u (r ∷ rs) = (is_active r.state && text_eq r.track_uri u) || has_active u rs

-- The unique index acquisition_work_one_active_per_track.
unfoldable pub one_active : List WorkRow → Bool
one_active [] = true
one_active (r ∷ rs) = not (is_active r.state && has_active r.track_uri rs) && one_active rs

unfoldable pub all_checked : List WorkRow → Bool
all_checked [] = true
all_checked (r ∷ rs) = check_row r && all_checked rs

-- The UNIQUE constraint of managed_tracks.relative_path, for a row of track `u` at path `p`.
unfoldable pub path_taken : Text → Text → List ManagedRow → Bool
path_taken u p [] = false
path_taken u p (m ∷ ms) =
    (text_eq m.relative_path p && not (text_eq m.track_uri u)) || path_taken u p ms
