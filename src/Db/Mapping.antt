-- ===== src/Db/Mapping.antt =====
-- internal/db/manual_youtube_mappings.go, mapping_revision.go and select_youtube.go, with the
-- triggers and CHECK constraints of migration 0005. `clock 0` and `clock 1` are what
-- acquisitionTime() gives where SelectYouTube queues work, `clock 2` where it saves the mapping.
pub mod Sound
pub mod Select
use offbeat.Prelude.{
  ℕ, zero, suc, ◌+◌, Text, codes, Bool, true, false, not, Option, none, some, List, [], ◌∷◌, ◌++◌,
  ◌&&◌, ◌||◌, leb, ◌==◌, if◌then◌else◌, length, take, drop, text_eq, ok, err,
}
use offbeat.Db.Schema.{
  WorkState, youtube, pending, running, unresolved, failed, WorkRow, MappingRow, RevisionRow, Db,
  state_eq, kind_eq,
}
use offbeat.Db.Tx.{
  ask, no_rows, conflict, constraint, Reply, Tx, ◌>>=◌, ◌>>◌, pure, raise_if, gets, Driver,
  transact,
}
use offbeat.Db.Query.{last_where, with_id, insert_work, update_work}
use offbeat.Db.Work.{
  AcquisitionWork, acquisition, acquisition_by_track_and_states, require_desired_track,
}

abbrev pub is_alnum : ℕ → Bool
is_alnum c = (leb b'0' c && leb c b'9') || (leb b'A' c && leb c b'Z') || (leb b'a' c && leb c b'z')

abbrev pub all_chars : (ℕ → Bool) → Text → Bool
all_chars p [] = true
all_chars p (c ∷ s) = p c && all_chars p s

-- The CHECK constraints of manual_youtube_mappings.
unfoldable pub check_mapping : Text → Text → Bool
check_mapping u v =
    text_eq (take 14 u) (codes "spotify:track:")
    && leb 15 (length u)
    && leb (length u) 36
    && all_chars is_alnum (drop 14 u)
    && (length v == 11)
    && all_chars (λ c. is_alnum c || (c == b'_') || (c == b'-')) v

-- COALESCE((SELECT revision … WHERE track_uri = ?), 0)
unfoldable pub revision_of : Text → List RevisionRow → ℕ
revision_of u [] = 0
revision_of u (r ∷ rs) = if text_eq r.track_uri u then r.revision else revision_of u rs

-- The triggers mapping_revision_insert and mapping_revision_update.
unfoldable pub bump_revision : Text → List RevisionRow → List RevisionRow
bump_revision u [] = record { track_uri = u; revision = 1 } ∷ []
bump_revision u (r ∷ rs) =
    if text_eq r.track_uri u
    then record r { revision = r.revision + 1 } ∷ rs
    else r ∷ bump_revision u rs

-- The trigger mapping_revision_delete, an UPDATE.
unfoldable pub bump_deleted : Text → List RevisionRow → List RevisionRow
bump_deleted u [] = []
bump_deleted u (r ∷ rs) =
    if text_eq r.track_uri u
    then record r { revision = r.revision + 1 } ∷ rs
    else r ∷ bump_deleted u rs

unfoldable pub mapped_video : Text → List MappingRow → Option Text
mapped_video u [] = none
mapped_video u (m ∷ ms) = if text_eq m.track_uri u then some m.video_id else mapped_video u ms

unfoldable pub upsert_mapping : Text → Text → Text → List MappingRow → List MappingRow
upsert_mapping u v now [] =
    record { track_uri = u; video_id = v; created_at = now; updated_at = now } ∷ []
upsert_mapping u v now (m ∷ ms) =
    if text_eq m.track_uri u
    then record m { video_id = v; updated_at = now } ∷ ms
    else m ∷ upsert_mapping u v now ms

unfoldable pub delete_mapping : Text → List MappingRow → List MappingRow
delete_mapping u [] = []
delete_mapping u (m ∷ ms) =
    let rest = delete_mapping u ms in if text_eq m.track_uri u then rest else m ∷ rest

save_mapping : Text → Text → Text → Tx (Unit {0})
save_mapping u v now s =
    if check_mapping u v
    then ok (
      tt,
      record s {
        mappings = upsert_mapping u v now s.mappings;
        mapping_revisions = bump_revision u s.mapping_revisions;
      },
    )
    else err constraint

unfoldable pub mapping_revision : Text → Db → ℕ
mapping_revision u s = revision_of u s.mapping_revisions

abbrev pub watch_url : Text → Text
watch_url v = codes "https://www.youtube.com/watch?v=" ++ v

-- The provenance is 'manual' in every row; no YouTube work reads as `none` and "".
pub record ManualYouTubeMapping : Type 0 where
  pub track_uri : Text
  pub video_id : Text
  pub created_at : Text
  pub updated_at : Text
  pub work_state : Option WorkState
  pub work_error : Text

abbrev pub latest_youtube : Text → List WorkRow → Option WorkRow
latest_youtube u = last_where (λ r. text_eq r.track_uri u && kind_eq r.source_kind youtube)

abbrev url_is : Text → Option Text → Bool
url_is url none = false
url_is url (some u) = text_eq u url

join_work : MappingRow → Option WorkRow → ManualYouTubeMapping
join_work m none = record {
  track_uri = m.track_uri;
  video_id = m.video_id;
  created_at = m.created_at;
  updated_at = m.updated_at;
  work_state = none;
  work_error = [];
}
join_work m (some w) = record {
  track_uri = m.track_uri;
  video_id = m.video_id;
  created_at = m.created_at;
  updated_at = m.updated_at;
  work_state = some w.state;
  work_error = if url_is (watch_url m.video_id) w.source_url then w.error else [];
}

find_mapping : Text → List MappingRow → Option MappingRow
find_mapping u [] = none
find_mapping u (m ∷ ms) = if text_eq m.track_uri u then some m else find_mapping u ms

unfoldable pub manual_youtube_mapping : Text → Db → Reply ManualYouTubeMapping
unfolding find_mapping join_work
manual_youtube_mapping u s = elim (find_mapping u s.mappings) [
  | none ↦ err no_rows
  | some m ↦ ok (join_work m (latest_youtube m.track_uri s.work))
]

-- The INSERT commits before the saved row is read back.
unfoldable pub set_manual_youtube_mapping :
    Driver → Text → Text → Text → Db → Reply ManualYouTubeMapping × Db
unfolding save_mapping
set_manual_youtube_mapping d now u v s =
    ask d (λ done. manual_youtube_mapping u) (transact d (save_mapping u v now) s)

remove_over : Text → Option Text → Tx (Unit {0})
remove_over u none s = err no_rows
remove_over u (some v) s = ok (
  tt,
  record s {
    mappings = delete_mapping u s.mappings;
    mapping_revisions = bump_deleted u s.mapping_revisions;
  },
)

remove_statements : Text → Tx (Unit {0})
unfolding remove_over
remove_statements u s = remove_over u (mapped_video u s.mappings) s

unfoldable pub remove_manual_youtube_mapping : Driver → Text → Db → Reply (Unit {0}) × Db
unfolding remove_statements
remove_manual_youtube_mapping d u = transact d (remove_statements u)

-- active.ID, which is 0 where the lookup found no row
abbrev pub active_id : Option AcquisitionWork → ℕ
active_id none = 0
active_id (some w) = w.id

abbrev pub redirects : Text → Option AcquisitionWork → Bool
redirects url none = false
redirects url (some w) = not (kind_eq w.source_kind youtube) || not (text_eq w.source_url url)

-- `current != videoID`, where a missing mapping reads ""
abbrev pub other_video : Option Text → Text → Bool
other_video none v = not (text_eq [] v)
other_video (some current) v = not (text_eq current v)

abbrev pub is_reusable : Text → WorkRow → Bool
is_reusable u r =
    text_eq r.track_uri u
    && kind_eq r.source_kind youtube
    && (state_eq r.state unresolved || state_eq r.state failed)

abbrev pub reusable_with_id : ℕ → WorkRow → Bool
reusable_with_id i r = with_id i r && (state_eq r.state unresolved || state_eq r.state failed)

abbrev pub set_selected : Text → Text → WorkRow → WorkRow
set_selected url now r = record r {
  source_url = some url;
  state = pending;
  error = [];
  updated_at = now;
}

queue_over : Text → Text → (ℕ → Text) → Option WorkRow → Tx ℕ
queue_over u url clock none = insert_work u youtube (some url) (clock 0) (clock 1)
queue_over u url clock (some r) = do
  changed ← update_work (reusable_with_id r.id) (set_selected url (clock 0))
  raise_if (not (changed == 1)) conflict
  pure r.id

-- `if active.ID == 0 { … }`: reuse the latest attempt or insert a new one.
queue_selected : Text → Text → (ℕ → Text) → ℕ → Tx ℕ
unfolding queue_over
queue_selected u url clock zero s = queue_over u url clock (last_where (is_reusable u) s.work) s
queue_selected u url clock (suc i) s = ok (suc i, s)

select_statements : (ℕ → Text) → Text → Text → ℕ → Tx AcquisitionWork
unfolding queue_selected save_mapping
select_statements clock u v expected = do
  require_desired_track u
  revision ← gets (mapping_revision u)
  active ← acquisition_by_track_and_states u pending running
  raise_if (redirects (watch_url v) active) conflict
  current ← gets (λ s. mapped_video u s.mappings)
  raise_if (not (revision == expected) && (other_video current v || (active_id active == 0)))
      conflict
  i ← queue_selected u (watch_url v) clock (active_id active)
  save_mapping u v (clock 2)
  acquisition i

unfoldable pub select_youtube :
    Driver → (ℕ → Text) → Text → Text → ℕ → Db → Reply AcquisitionWork × Db
unfolding select_statements
select_youtube d clock u v expected = transact d (select_statements clock u v expected)
