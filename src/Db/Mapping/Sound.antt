-- ===== src/Db/Mapping/Sound.antt =====
-- The mapping operations keep the constraints of acquisition_work.
use offbeat.Db.Tx.{transact, Driver, ◌>>=◌, ◌>>◌, Tx}
use offbeat.Db.Query.Lookup.{
  first_where-above, first_where-on_track, last_where-first, has_track-named, on_track,
  last_where-holds,
}
use offbeat.Db.Invariant.{
  ask-IsWellFormed, transact-IsWellFormed, insert_work_lem, update_work_wake, IsKept, IsWellFormed,
}
use offbeat.Db.Schema.{check_row, youtube, has_active, Db, WorkRow}
use offbeat.Db.Keeps.{Keeps-bind, IsKept-continue, Keeps}
use offbeat.Prelude.{
  zero, suc, ◌<◌, refl, text_eq_iff, inr, inl, Option-cases, is_empty, false, true, some, ◌≡◌,
  arith, ℕ, Text,
}
use offbeat.Db.Query.{has_track, first_where, last_where}
use offbeat.Db.Work.{
  scan_work, AcquisitionWork, acquisition_by_track_and_states, require_desired_track, acquisition,
}
use offbeat.Db.Mapping.{
  remove_manual_youtube_mapping, select_youtube, set_manual_youtube_mapping, set_selected,
  reusable_with_id, watch_url, queue_selected, is_reusable, queue_over, remove_over,
  remove_statements, save_mapping, select_statements,
}

acquisition-Keeps : (i : ℕ) → Keeps (acquisition i)
unfolding acquisition
acquisition-Keeps i = record { at = λ s w. ground arith }

save-Keeps : (u v now : Text) → Keeps (save_mapping u v now)
unfolding save_mapping
save-Keeps u v now = record { at = λ s w. ground arith }

remove-Keeps : (u : Text) → Keeps (remove_statements u)
unfolding remove_statements remove_over
remove-Keeps u = record { at = λ s w. ground arith }

module _ (u url : Text) (clock : ℕ → Text) (s : Db) (w : IsWellFormed s) where
  reuse-IsKept :
      (r : WorkRow)
      → last_where (is_reusable u) s.work ≡ some r
      → has_active u s.work ≡ false
      → is_empty url ≡ false
      → IsKept (queue_over u url clock (some r) s)
  unfolding queue_over
  reuse-IsKept r found free full =
      let holds = last_where-holds (is_reusable u) s.work r found in
      let (e, w') =
        update_work_wake (reusable_with_id r.id) (set_selected url (clock 0)) (λ x. refl)
          (λ x. refl) (λ x q h. unfold check_row in ground arith) s w r.id (λ x q. ground arith) r
          (last_where-first (is_reusable u) (reusable_with_id r.id) s.work r (λ x q. ground arith)
            (ground arith) w.sorted found)
          (ground (arith, text_eq_iff r.track_uri u)) in
      rw e (ground arith)

  queue-IsKept :
      is_empty u ≡ false
      → is_empty url ≡ false
      → has_active u s.work ≡ false
      → IsKept (queue_selected u url clock 0 s)
  unfolding queue_selected
  queue-IsKept named full free = elim (Option-cases (last_where (is_reusable u) s.work)) [
    | inl e ↦ rw e (
        unfold queue_over in
        ground (arith, insert_work_lem u youtube (some url) (clock 0) (clock 1) s w named))
    | inr (r, e) ↦ rw e (reuse-IsKept r e free full)
  ]

active-IsKept :
    (u url : Text) (clock : ℕ → Text) (i : ℕ) (s : Db)
    → IsWellFormed s
    → 0 < i
    → IsKept (queue_selected u url clock i s)
unfolding queue_selected
active-IsKept u url clock zero s w h = absurd (omega arith)
active-IsKept u url clock (suc i) s w h = w

module _ (clock : ℕ → Text) (u v : Text) (expected : ℕ) where
  -- From queueing on.
  finish : ℕ → Tx AcquisitionWork
  finish i = do
    j ← queue_selected u (watch_url v) clock i
    save_mapping u v (clock 2)
    acquisition j

  module _ (s : Db) (w : IsWellFormed s) where
    finish-IsKept :
        (i : ℕ) → IsKept (queue_selected u (watch_url v) clock i s) → IsKept (finish i s)
    unfolding finish
    finish-IsKept i h =
        IsKept-continue (queue_selected u (watch_url v) clock i s)
          (λ j. save_mapping u v (clock 2) >> acquisition j) h
          (λ j.
            Keeps-bind (save_mapping u v (clock 2)) (λ _. acquisition j) (save-Keeps u v (clock 2))
              (λ _. acquisition-Keeps j))

    select-IsKept : IsKept (select_statements clock u v expected s)
    unfolding select_statements require_desired_track acquisition_by_track_and_states finish
        scan_work
    select-IsKept = elim (Option-cases (first_where (on_track u) s.work)) [
      | inl e ↦ ground (
        arith,
        λ (h : has_track u s.tracks ≡ true). finish-IsKept 0 (
            queue-IsKept u (watch_url v) clock s w (has_track-named u s.tracks w.named h) refl
              (first_where-on_track u s.work e)),
      )
      | inr (r, e) ↦ ground (
        arith,
        finish-IsKept r.id (
            active-IsKept u (watch_url v) clock r.id s w
              (first_where-above (on_track u) 0 s.work r w.positive e)),
      )
    ]

module _ (d : Driver) (s : Db) (w : IsWellFormed s) where
  pub set_manual_youtube_mapping-IsWellFormed :
      (now u v : Text) → IsWellFormed (set_manual_youtube_mapping d now u v s).1
  unfolding set_manual_youtube_mapping
  set_manual_youtube_mapping-IsWellFormed now u v =
      ask-IsWellFormed d _ (transact d (save_mapping u v now) s)
        (transact-IsWellFormed d (save_mapping u v now) s w ((save-Keeps u v now).at s w))

  pub remove_manual_youtube_mapping-IsWellFormed :
      (u : Text) → IsWellFormed (remove_manual_youtube_mapping d u s).1
  unfolding remove_manual_youtube_mapping
  remove_manual_youtube_mapping-IsWellFormed u =
      transact-IsWellFormed d (remove_statements u) s w ((remove-Keeps u).at s w)

  pub select_youtube-IsWellFormed :
      (clock : ℕ → Text) (u v : Text) (expected : ℕ)
      → IsWellFormed (select_youtube d clock u v expected s).1
  unfolding select_youtube
  select_youtube-IsWellFormed clock u v expected =
      transact-IsWellFormed d (select_statements clock u v expected) s w
        (select-IsKept clock u v expected s w)
