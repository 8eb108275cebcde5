-- ===== src/Db/Query.antt =====
-- The SQL statements of the acquisition code, over the tables as lists.
pub mod Active
pub mod Ids
pub mod Wake
pub mod Lookup
use offbeat.Prelude.{
  is_empty, ℕ, suc, ◌+◌, Text, Bool, false, Option, none, some, List, [], ◌∷◌, ◌++◌, ◌&&◌, ◌||◌,
  ◌==◌, if◌then◌else◌, text_eq, ok, err,
}
use offbeat.Desired.State.{Track}
use offbeat.Db.Schema.{
  SourceKind, pending, WorkRow, ManagedRow, one_active, all_checked, path_taken,
}
use offbeat.Db.Tx.{constraint, Tx}

-- SELECT EXISTS(SELECT 1 FROM spotify_tracks WHERE uri = ?)
unfoldable pub has_track : Text → List Track → Bool
has_track u [] = false
has_track u (t ∷ ts) = text_eq t.uri u || has_track u ts

-- SELECT … WHERE p ORDER BY id LIMIT 1
unfoldable pub first_where : (WorkRow → Bool) → List WorkRow → Option WorkRow
first_where p [] = none
first_where p (r ∷ rs) = if p r then some r else first_where p rs

-- SELECT … WHERE p ORDER BY id DESC LIMIT 1
unfoldable pub last_where : (WorkRow → Bool) → List WorkRow → Option WorkRow
last_where p [] = none
last_where p (r ∷ rs) = elim (last_where p rs) [
  | some later ↦ some later
  | none ↦ if p r then some r else none
]

-- SELECT EXISTS(SELECT 1 FROM acquisition_work WHERE p)
unfoldable pub exists_where : (WorkRow → Bool) → List WorkRow → Bool
exists_where p [] = false
exists_where p (r ∷ rs) = p r || exists_where p rs

-- SUM(p), and RowsAffected of an UPDATE with `WHERE p`.
unfoldable pub count_where : (WorkRow → Bool) → List WorkRow → ℕ
count_where p [] = 0
count_where p (r ∷ rs) = (if p r then 1 else 0) + count_where p rs

-- SELECT … WHERE p ORDER BY id
unfoldable pub select_where : (WorkRow → Bool) → List WorkRow → List WorkRow
select_where p [] = []
select_where p (r ∷ rs) = let rest = select_where p rs in if p r then r ∷ rest else rest

-- UPDATE acquisition_work SET f WHERE p
unfoldable pub update_where : (WorkRow → Bool) → (WorkRow → WorkRow) → List WorkRow → List WorkRow
update_where p f [] = []
update_where p f (r ∷ rs) = (if p r then f r else r) ∷ update_where p f rs

abbrev pub with_id : ℕ → WorkRow → Bool
with_id i r = r.id == i

-- INSERT INTO acquisition_work, with the id that AUTOINCREMENT gives.
unfoldable pub insert_work : Text → SourceKind → Option Text → Text → Text → Tx ℕ
insert_work uri kind url created now s =
    let row : WorkRow = record {
      id = s.next_id;
      track_uri = uri;
      source_kind = kind;
      source_url = url;
      state = pending;
      error = [];
      created_at = created;
      updated_at = now;
    } in
    if all_checked (s.work ++ row ∷ []) && one_active (s.work ++ row ∷ [])
    then ok (s.next_id, record s { work = s.work ++ row ∷ []; next_id = suc s.next_id })
    else err constraint

-- UPDATE acquisition_work SET f WHERE p; the value is RowsAffected.
unfoldable pub update_work : (WorkRow → Bool) → (WorkRow → WorkRow) → Tx ℕ
update_work p f s =
    let rows = update_where p f s.work in
    if all_checked rows && one_active rows
    then ok (count_where p s.work, record s { work = rows })
    else err constraint

-- INSERT INTO managed_tracks … ON CONFLICT(track_uri) DO UPDATE SET …
-- Of the CHECK constraints of managed_tracks the callers ensure all but those on the two texts.
upsert_row : ManagedRow → List ManagedRow → List ManagedRow
upsert_row row [] = row ∷ []
upsert_row row (m ∷ ms) =
    if text_eq m.track_uri row.track_uri then row ∷ ms else m ∷ upsert_row row ms

unfoldable pub upsert_managed : ManagedRow → Tx (Unit {0})
unfolding upsert_row
upsert_managed row s =
    if is_empty row.track_uri
      || is_empty row.relative_path
      || path_taken row.track_uri row.relative_path s.managed
    then err constraint
    else ok (tt, record s { managed = upsert_row row s.managed })

unfoldable pub managed_of : Text → List ManagedRow → Option ManagedRow
managed_of u [] = none
managed_of u (m ∷ ms) = if text_eq m.track_uri u then some m else managed_of u ms
