-- ===== src/Db/Mapping/Select.antt =====
-- select_youtube.go: what a selection that succeeds has checked, and what it leaves of the mapping.
use mathlib.Core.Path.{subst}
use offbeat.Db.Work.{
  scan_work, AcquisitionWork, acquisition_by_track_and_states, require_desired_track, on_track_in,
  acquisition,
}
use offbeat.Db.Tx.{transact-done, Driver, ◌>>◌, continue, Reply}
use offbeat.Db.Mapping.{
  mapping_revision, select_statements, select_youtube, other_video, watch_url, set_selected,
  is_reusable, reusable_with_id, bump_revision, save_mapping, upsert_mapping, mapped_video,
  queue_over, queue_selected, revision_of,
}
use offbeat.Db.Query.{first_where, has_track, last_where, insert_work, update_work}
use offbeat.Db.Schema.{pending, running, MappingRow, RevisionRow, youtube, SourceKind, WorkRow, Db}
use offbeat.Prelude.{
  Option-cases, text_eq, text_eq_iff, is_empty, false, true, [], refl, none, zero, ◌∷◌, suc,
  text_eq_refl, err, ◌+◌, Bool, List, arith, ok, some, Option, ℕ, ◌≡◌, Text, ap, inl, inr, ◌⊎◌,
}

-- The mapping and its revision are those of `s`.
abbrev SameMapping : Db → Db → Type 0
SameMapping s t = (t.mappings ≡ s.mappings) × (t.mapping_revisions ≡ s.mapping_revisions)

abbrev Queued : {A : Type 0} → Db → Reply (A × Db) → Type 0
Queued s (ok (a, t)) = SameMapping s t
Queued s (err e) = Unit

insert_work-Queued :
    (u : Text) (k : SourceKind) (url : Option Text) (created now : Text) (s : Db)
    → Queued s (insert_work u k url created now s)
unfolding insert_work
insert_work-Queued u k url created now s = ground arith

update_work-Queued :
    (p : WorkRow → Bool) (f : WorkRow → WorkRow) (s : Db) → Queued s (update_work p f s)
unfolding update_work
update_work-Queued p f s = ground arith

queue_over-Queued :
    (u url : Text) (clock : ℕ → Text) (o : Option WorkRow) (s : Db)
    → Queued s (queue_over u url clock o s)
unfolding queue_over
queue_over-Queued u url clock none s = insert_work-Queued u youtube (some url) (clock 0) (clock 1) s
queue_over-Queued u url clock (some r) s =
    ground (arith, update_work-Queued (reusable_with_id r.id) (set_selected url (clock 0)) s)

queue_selected-Queued :
    (u url : Text) (clock : ℕ → Text) (i : ℕ) (s : Db) → Queued s (queue_selected u url clock i s)
unfolding queue_selected
queue_selected-Queued u url clock zero s =
    queue_over-Queued u url clock (last_where (is_reusable u) s.work) s
queue_selected-Queued u url clock (suc i) s = (refl, refl)

mapped_video-upsert_mapping :
    (u v now : Text) (ms : List MappingRow) → mapped_video u (upsert_mapping u v now ms) ≡ some v
unfolding mapped_video upsert_mapping
mapped_video-upsert_mapping u v now [] = ground (arith, text_eq_refl u)
mapped_video-upsert_mapping u v now (m ∷ ms) =
    ground (arith, mapped_video-upsert_mapping u v now ms)

revision_of-bump_revision :
    (u : Text) (rs : List RevisionRow) → revision_of u (bump_revision u rs) ≡ revision_of u rs + 1
unfolding revision_of bump_revision
revision_of-bump_revision u [] = ground (arith, text_eq_refl u)
revision_of-bump_revision u (r ∷ rs) = ground (arith, revision_of-bump_revision u rs)

-- The mapping of `u` is `v`, one revision later than in `s`.
abbrev Saved : Text → Text → Db → Db → Type 0
Saved u v s t =
    (mapped_video u t.mappings ≡ some v)
    × (revision_of u t.mapping_revisions ≡ revision_of u s.mapping_revisions + 1)

abbrev Saves : {A : Type 0} → Text → Text → Db → Reply (A × Db) → Type 0
Saves u v s (ok (a, t)) = Saved u v s t
Saves u v s (err e) = Unit

module _ (u v : Text) where
  save_mapping-Saves :
      (now : Text) (i : ℕ) (s : Db) → Saves u v s ((save_mapping u v now >> acquisition i) s)
  unfolding save_mapping acquisition
  save_mapping-Saves now i s = ground (
    arith,
    mapped_video-upsert_mapping u v now s.mappings,
    revision_of-bump_revision u s.mapping_revisions,
  )

  continue-Saves :
      (s : Db) (r : Reply (ℕ × Db)) (now : Text)
      → Queued s r
      → Saves u v s (continue r (λ i. save_mapping u v now >> acquisition i))
  continue-Saves s (ok (i, t)) now (m, r) =
      ground (arith, save_mapping-Saves now i t, ap (revision_of u) r)
  continue-Saves s (err e) now h = tt

-- What a selection that succeeds says of the database before and after it.
abbrev pub Selected : {A : Type 0} → Text → Text → ℕ → Db → Reply (A × Db) → Type 0
Selected u v expected s (err e) = Unit
Selected u v expected s (ok (a, t)) =
    (has_track u s.tracks ≡ true)
    × ((revision_of u s.mapping_revisions ≡ expected) ⊎ (mapped_video u s.mappings ≡ some v))
    × Saved u v s t

same_video :
    (o : Option Text) (v : Text) → other_video o v ≡ false → is_empty v ≡ false → o ≡ some v
same_video none (c ∷ v) h k = unfold text_eq in cc
same_video none [] h k = cc
same_video (some w) v h k = ap some ((text_eq_iff w v).0 (ground arith))

module _ (clock : ℕ → Text) (u v : Text) (expected : ℕ) (s : Db) where
  saves :
      (i : ℕ)
      → Saves u v s (
          continue
            (queue_selected u (watch_url v) clock i s)
            (λ j. save_mapping u v (clock 2) >> acquisition j))
  saves i =
      continue-Saves u v s (queue_selected u (watch_url v) clock i s) (clock 2)
        (queue_selected-Queued u (watch_url v) clock i s)

  select-Selected :
      is_empty v ≡ false → Selected u v expected s (select_statements clock u v expected s)
  unfolding select_statements require_desired_track acquisition_by_track_and_states mapping_revision
      scan_work
  select-Selected full = elim (Option-cases (first_where (on_track_in u pending running) s.work)) [
    | inl e ↦ ground (arith, saves 0)
    | inr (r, e) ↦ ground (arith, saves r.id, same_video (mapped_video u s.mappings) v)
  ]

-- A selection of a video that succeeds was for a desired track, with the revision that the caller
-- expected or the very video that was mapped already; after it the track is mapped to the video, one
-- revision later.
pub select_youtube-Selected :
    (d : Driver) (clock : ℕ → Text) (u v : Text) (expected : ℕ) (s s' : Db) (a : AcquisitionWork)
    → is_empty v ≡ false
    → select_youtube d clock u v expected s ≡ (ok a, s')
    → Selected u v expected s (ok (a, s'))
unfolding select_youtube
select_youtube-Selected d clock u v expected s s' a full h =
    subst (λ r. Selected u v expected s r)
      (transact-done d (select_statements clock u v expected) s s' a h)
      (select-Selected clock u v expected s full)
