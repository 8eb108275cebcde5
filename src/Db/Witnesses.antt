-- ===== src/Db/Witnesses.antt =====
-- A database of three tracks and two rows of work on which the theorems apply.
use offbeat.Db.Mapping.Select.{select_youtube-Selected, Selected}
use offbeat.Db.Mapping.{
  bump_revision, upsert_mapping, check_mapping, mapped_video, revision_of, mapping_revision,
  select_youtube, watch_url,
}
use offbeat.Db.Batch.Unresolved.{retry_unresolved_accounts, Retried}
use offbeat.Db.Query.Ids.{below, above, ascending}
use offbeat.Db.Work.Lifecycle.{recover_counts, claim_oldest, Claimed}
use offbeat.Db.Work.Enqueue.{enqueue_again, later_reply}
use offbeat.Db.Batch.Missing.{enqueue_missing_accounts, AllCovered, seen, AllDesired}
use offbeat.Db.Invariant.{IsWellFormed}
use offbeat.Db.Runs.{Request, start, claim, next, reachable-unrefused, recover, serve}
use offbeat.Db.Work.{
  acquisition, acquisition_by_track_and_states, acquisition_counts, claim_acquisition,
  require_desired_track, AcquisitionWork, enqueue_acquisition, recover_acquisitions, scan_work,
}
use offbeat.Db.Batch.{
  enqueue_missing_acquisitions, retry_unresolved_acquisitions, AcquisitionBatch,
  UnresolvedRetryBatch,
}
use offbeat.Db.Query.{last_where, insert_work, first_where, has_track}
use offbeat.Prelude.{
  ◌≢◌, refl, arith, ◌+◌, ok, [], none, some, text_eq, ◌∷◌, ◌≡◌, List, Text, codes, ℕ, ◌++◌,
}
use offbeat.Desired.State.{Track}
use offbeat.Db.Schema.{
  has_active, one_active, check_row, all_checked, youtube, direct, unresolved, pending, Db, WorkRow,
}
use offbeat.Db.Tx.{constraint, transact, Reply, healthy}

abbrev track_named : Text → Track
track_named uri = record {
  uri = uri;
  name = codes "Song";
  artists = [];
  album = record { uri = codes "spotify:album:1"; name = codes "Album" };
  duration_ms = 200000;
  album_artist = [];
  track_number = none;
  disc_number = none;
  release_date = [];
  artwork_url = [];
}

abbrev now : Text
now = codes "2026-01-01T00:00:00Z"

abbrev clock : ℕ → Text
clock i = now

abbrev unresolved_row : WorkRow
unresolved_row = record {
  id = 1;
  track_uri = codes "a";
  source_kind = youtube;
  source_url = none;
  state = unresolved;
  error = codes "ambiguous";
  created_at = now;
  updated_at = now;
}

abbrev pending_row : WorkRow
pending_row = record unresolved_row { id = 2; track_uri = codes "b"; state = pending }

abbrev three_tracks : Db
three_tracks = record {
  tracks = track_named (codes "a") ∷ track_named (codes "b") ∷ track_named (codes "c") ∷ [];
  work = unresolved_row ∷ pending_row ∷ [];
  next_id = 3;
  managed = [];
  mappings = [];
  mapping_revisions = [];
}

three_tracks-IsWellFormed : IsWellFormed three_tracks
unfolding all_checked check_row one_active has_active ascending above below has_track text_eq
three_tracks-IsWellFormed = record {
  checked = refl;
  unique = refl;
  sorted = refl;
  positive = refl;
  fresh = refl;
  started = omega arith;
  named = refl;
}

abbrev wanted : List Text
wanted = codes "a" ∷ codes "c" ∷ []

wanted-AllDesired : AllDesired wanted three_tracks
unfolding has_track text_eq
wanted-AllDesired = (refl, (refl, tt))

enqueue_missing_accounts_example :
    (b b' : AcquisitionBatch) × (s' : Db) × (enqueue_missing_acquisitions healthy clock wanted
        three_tracks
      ≡ (ok b, s'))
    × (b.considered ≡ 2)
    × (seen b ≡ 2)
    × IsWellFormed s'
    × AllCovered wanted s'
    × (enqueue_missing_acquisitions healthy clock wanted s' ≡ (ok b', s'))
    × (b'.queued ≡ 0)
enqueue_missing_accounts_example =
    enqueue_missing_accounts clock clock wanted three_tracks three_tracks-IsWellFormed
      wanted-AllDesired

claim_oldest_example :
    (reply : Reply AcquisitionWork) × (s' : Db) × (claim_acquisition healthy now three_tracks
      ≡ (reply, s'))
    × Claimed now three_tracks reply s'
claim_oldest_example = claim_oldest now three_tracks three_tracks-IsWellFormed

retry_unresolved_accounts_example :
    (b : UnresolvedRetryBatch) × (s' : Db) × (retry_unresolved_acquisitions healthy clock wanted
        three_tracks
      ≡ (ok b, s'))
    × Retried wanted three_tracks b s'
retry_unresolved_accounts_example =
    retry_unresolved_accounts clock wanted three_tracks three_tracks-IsWellFormed

recover_counts_example :
    (s' : Db) × (recover_acquisitions healthy now three_tracks ≡ (ok tt, s'))
    × (acquisition_counts s' ≡ record (acquisition_counts three_tracks) {
      pending =
          (acquisition_counts three_tracks).pending + (acquisition_counts three_tracks).running;
      running = 0;
    })
recover_counts_example = recover_counts now three_tracks three_tracks-IsWellFormed

abbrev link : Text
link = codes "https://example.org/c.flac"

abbrev direct_row : WorkRow
direct_row = record {
  id = 3;
  track_uri = codes "c";
  source_kind = direct;
  source_url = some link;
  state = pending;
  error = [];
  created_at = now;
  updated_at = now;
}

abbrev enqueued : Db
enqueued = record three_tracks { work = three_tracks.work ++ direct_row ∷ []; next_id = 4 }

enqueued-link :
    enqueue_acquisition healthy now (codes "c") link three_tracks
    ≡ (ok (scan_work direct_row), enqueued)
unfolding enqueue_acquisition transact require_desired_track has_track text_eq first_where
    acquisition_by_track_and_states insert_work acquisition one_active has_active all_checked
    check_row
enqueued-link = refl

enqueue_again_example :
    ((scan_work direct_row).source_url ≡ link)
    × (enqueue_acquisition healthy now (codes "c") (codes "other") enqueued
        ≡ (later_reply (scan_work direct_row) (codes "other"), enqueued))
enqueue_again_example =
    enqueue_again now now (codes "c") link (codes "other") three_tracks enqueued
      (scan_work direct_row) three_tracks-IsWellFormed enqueued-link refl

abbrev claimed_then_recovered : Db
claimed_then_recovered = (serve healthy (recover now) (serve healthy (claim now) three_tracks).1).1

reachable-unrefused_example :
    (serve healthy (Request.enqueue_missing (λ i. now) wanted) claimed_then_recovered).0
    ≢ some constraint
reachable-unrefused_example =
    reachable-unrefused three_tracks claimed_then_recovered healthy
      (Request.enqueue_missing (λ i. now) wanted) three_tracks-IsWellFormed
      (next _ (next three_tracks start healthy (claim now)) healthy (recover now)) refl

abbrev song_uri : Text
song_uri = codes "spotify:track:1"

abbrev video : Text
video = codes "captured001"

abbrev one_track : Db
one_track = record {
  tracks = track_named song_uri ∷ [];
  work = [];
  next_id = 1;
  managed = [];
  mappings = [];
  mapping_revisions = [];
}

abbrev chosen_row : WorkRow
chosen_row = record direct_row {
  id = 1;
  track_uri = song_uri;
  source_kind = youtube;
  source_url = some (watch_url video);
}

abbrev chosen : Db
chosen = record one_track {
  work = chosen_row ∷ [];
  next_id = 2;
  mappings =
      record { track_uri = song_uri; video_id = video; created_at = now; updated_at = now } ∷ [];
  mapping_revisions = record { track_uri = song_uri; revision = 1 } ∷ [];
}

chosen-video :
    select_youtube healthy clock song_uri video 0 one_track ≡ (ok (scan_work chosen_row), chosen)
unfolding select_youtube transact require_desired_track has_track text_eq mapping_revision
    revision_of acquisition_by_track_and_states acquisition first_where last_where mapped_video
    check_mapping upsert_mapping bump_revision insert_work one_active has_active all_checked
    check_row scan_work
chosen-video = refl

select_youtube-Selected_example :
    Selected song_uri video 0 one_track (ok (scan_work chosen_row, chosen))
select_youtube-Selected_example =
    select_youtube-Selected healthy clock song_uri video 0 one_track chosen (scan_work chosen_row)
      refl chosen-video
