-- ===== src/Db/Complete.antt =====
-- internal/db/acquisition_work.go: completion, which registers the audio file with its
-- presentation; internal/db/managed_tracks.go: RegisterManagedTrack.
pub mod Sound
use offbeat.Prelude.{
  ℕ, Text, codes, byte_len, is_empty, Bool, false, not, Option, none, some, List, [], ◌∷◌, ◌&&◌,
  ◌||◌, ltb, ◌==◌, if◌then◌else◌, text_eq, ok, err,
}
use offbeat.Db.Schema.{running, complete, ManagedRow, Db, state_eq}
use offbeat.Db.Tx.{
  ask, precondition, driver, Reply, Tx, ◌>>=◌, ◌>>◌, pure, raise_if, gets, Driver, transact,
}
use offbeat.Db.Query.{has_track, with_id, update_work, upsert_managed, managed_of}
use offbeat.Db.Work.{acquisition, require_desired_track, set_state}

-- The outcome of publishing one file: the arguments of
-- CompletePresentedAcquisitionWithFingerprints behind the id.
pub record Presented : Type 0 where
  pub relative_path : Text
  pub tag_state : Text
  pub tag_error : Text
  pub artwork_state : Text
  pub artwork_error : Text
  pub tag_fingerprint : Text
  pub artwork_fingerprint : Text
  pub file_sha : Text

pub is_one_of : Text → List Text → Bool
is_one_of t [] = false
is_one_of t (u ∷ us) = text_eq t u || is_one_of t us

abbrev pub tag_states : List Text
tag_states = codes "pending" ∷ codes "tagged" ∷ codes "unsupported" ∷ codes "failed" ∷ []

abbrev pub artwork_states : List Text
artwork_states =
    codes "pending"
    ∷ codes "embedded"
    ∷ codes "unavailable"
    ∷ codes "unsupported"
    ∷ codes "failed"
    ∷ []

abbrev pub settled_tags : List Text
settled_tags = codes "tagged" ∷ codes "unsupported" ∷ []

abbrev pub settled_artwork : List Text
settled_artwork = codes "embedded" ∷ codes "unavailable" ∷ codes "unsupported" ∷ []

unfoldable pub bad_tag_outcome : Presented → Bool
unfolding is_one_of
bad_tag_outcome p = not (is_one_of p.tag_state tag_states) || ltb 128 (byte_len p.tag_error)

unfoldable pub bad_artwork_outcome : Presented → Bool
unfolding is_one_of
bad_artwork_outcome p =
    not (is_one_of p.artwork_state artwork_states) || ltb 128 (byte_len p.artwork_error)

unfoldable pub bad_fingerprints : Presented → Bool
unfolding is_one_of
bad_fingerprints p =
    (not (is_empty p.tag_fingerprint)
      && (not (byte_len p.tag_fingerprint == 64) || not (is_one_of p.tag_state settled_tags)))
    || (not (is_empty p.artwork_fingerprint)
        && (not (byte_len p.artwork_fingerprint == 64)
            || not (is_one_of p.artwork_state settled_artwork)))
    || (not (is_empty p.file_sha) && not (byte_len p.file_sha == 64))

abbrev pub presented_row : Text → Presented → ManagedRow
presented_row u p = record {
  track_uri = u;
  relative_path = p.relative_path;
  tag_state = p.tag_state;
  tag_error = p.tag_error;
  artwork_state = p.artwork_state;
  artwork_error = p.artwork_error;
  tag_fingerprint = p.tag_fingerprint;
  artwork_fingerprint = p.artwork_fingerprint;
  file_sha256 = p.file_sha;
  refresh_intent = [];
}

-- INSERT … SELECT … FROM spotify_tracks WHERE uri = ?: no track, no row, and RowsAffected is 0.
insert_if_desired : Text → ManagedRow → Tx ℕ
insert_if_desired u row s =
    if has_track u s.tracks then (do upsert_managed row; pure 1) s else ok (0, s)

pub complete_statements : Text → ℕ → Presented → Tx (Unit {0})
unfolding insert_if_desired
complete_statements now i p = do
  work ← acquisition i
  raise_if (not (state_eq work.state running)) precondition
  require_desired_track work.track_uri
  changed ← insert_if_desired work.track_uri (presented_row work.track_uri p)
  raise_if (not (changed == 1)) precondition
  update_work (with_id i) (set_state complete [] now)
  pure tt

unfoldable pub complete_presented_acquisition_with_fingerprints :
    Driver → Text → ℕ → Presented → Db → Reply (Unit {0}) × Db
unfolding complete_statements
complete_presented_acquisition_with_fingerprints d now i p s =
    if is_empty p.relative_path || bad_tag_outcome p || bad_artwork_outcome p || bad_fingerprints p
    then (err precondition, s)
    else transact d (complete_statements now i p) s

unfoldable pub complete_presented_acquisition :
    Driver → Text → ℕ → Text → Text → Text → Text → Text → Db → Reply (Unit {0}) × Db
unfolding complete_presented_acquisition_with_fingerprints
complete_presented_acquisition d now i path tag_state tag_error artwork_state artwork_error =
    complete_presented_acquisition_with_fingerprints d now i (record {
      relative_path = path;
      tag_state = tag_state;
      tag_error = tag_error;
      artwork_state = artwork_state;
      artwork_error = artwork_error;
      tag_fingerprint = [];
      artwork_fingerprint = [];
      file_sha = [];
    })

unfoldable pub complete_tagged_acquisition :
    Driver → Text → ℕ → Text → Text → Text → Db → Reply (Unit {0}) × Db
unfolding complete_presented_acquisition
complete_tagged_acquisition d now i path tag_state tag_error =
    complete_presented_acquisition d now i path tag_state tag_error (codes "pending") []

unfoldable pub complete_acquisition : Driver → Text → ℕ → Text → Db → Reply (Unit {0}) × Db
unfolding complete_tagged_acquisition
complete_acquisition d now i path = complete_tagged_acquisition d now i path (codes "pending") []

-- ON CONFLICT(track_uri) DO UPDATE SET relative_path keeps the presentation columns; a new row has
-- the defaults of the migrations.
abbrev pub registered_row : Text → Text → Option ManagedRow → ManagedRow
registered_row u path none = record {
  track_uri = u;
  relative_path = path;
  tag_state = codes "pending";
  tag_error = [];
  artwork_state = codes "pending";
  artwork_error = [];
  tag_fingerprint = [];
  artwork_fingerprint = [];
  file_sha256 = [];
  refresh_intent = [];
}
registered_row u path (some m) = record m { relative_path = path }

-- The INSERT of RegisterManagedTrack, which commits before RowsAffected is read.
register_statement : Text → Text → Tx ℕ
register_statement u path = do
  old ← gets (λ s. managed_of u s.managed)
  insert_if_desired u (registered_row u path old)

unfoldable pub register_managed_track : Driver → Text → Text → Db → Reply (Unit {0}) × Db
unfolding register_statement insert_if_desired
register_managed_track d u path s =
    ask d (λ changed t. if changed == 1 then ok tt else err driver)
      (transact d (register_statement u path) s)
