-- ===== src/Db/Complete/Sound.antt =====
-- Completion and registration keep the constraints of acquisition_work.
use offbeat.Db.Invariant.{ask-IsWellFormed, update_work_calm, transact-IsWellFormed, IsWellFormed}
use offbeat.Db.Schema.{check_row, complete, ManagedRow, Db}
use offbeat.Db.Query.{managed_of, with_id, update_work, upsert_managed}
use offbeat.Db.Keeps.{Keeps-pure, Keeps-gets, Keeps-raise_if, Keeps-bind, Keeps}
use offbeat.Db.Tx.{transact, Driver}
use offbeat.Prelude.{refl, [], arith, ℕ, Text}
use offbeat.Db.Work.{set_state, acquisition, require_desired_track}
use offbeat.Db.Complete.{
  registered_row, complete_presented_acquisition_with_fingerprints, register_managed_track,
  Presented, insert_if_desired, register_statement, complete_statements,
}

acquisition-Keeps : (i : ℕ) → Keeps (acquisition i)
unfolding acquisition
acquisition-Keeps i = record { at = λ s w. ground arith }

require-Keeps : (u : Text) → Keeps (require_desired_track u)
unfolding require_desired_track
require-Keeps u = record { at = λ s w. ground arith }

insert-Keeps : (u : Text) (row : ManagedRow) → Keeps (insert_if_desired u row)
unfolding insert_if_desired upsert_managed
insert-Keeps u row = record { at = λ s w. ground arith }

finish-Keeps : (now : Text) (i : ℕ) → Keeps (update_work (with_id i) (set_state complete [] now))
finish-Keeps now i = record {
  at = λ s w.
      let (e, w') =
        update_work_calm (with_id i) (set_state complete [] now) (λ r. refl) (λ r. refl)
          (λ r p h. unfold check_row in h) s w (λ r p a. ground arith) in
      rw e w';
}

complete-Keeps : (now : Text) (i : ℕ) (p : Presented) → Keeps (complete_statements now i p)
unfolding complete_statements
complete-Keeps now i p = Keeps-bind _ _ (acquisition-Keeps i) λ work.
    Keeps-bind _ _ (Keeps-raise_if _ _) λ _. Keeps-bind _ _ (require-Keeps work.track_uri) λ _.
      Keeps-bind _ _ (insert-Keeps work.track_uri _) λ changed.
        Keeps-bind _ _ (Keeps-raise_if _ _)
          λ _. Keeps-bind _ _ (finish-Keeps now i) λ _. Keeps-pure tt

register-Keeps : (u path : Text) → Keeps (register_statement u path)
unfolding register_statement
register-Keeps u path =
    Keeps-bind _ _ (Keeps-gets (λ s. managed_of u s.managed))
      λ old. insert-Keeps u (registered_row u path old)

module _ (d : Driver) (s : Db) (w : IsWellFormed s) where
  pub complete_acquisition-IsWellFormed :
      (now : Text) (i : ℕ) (p : Presented)
      → IsWellFormed (complete_presented_acquisition_with_fingerprints d now i p s).1
  unfolding complete_presented_acquisition_with_fingerprints
  complete_acquisition-IsWellFormed now i p = ground (
    arith,
    transact-IsWellFormed d (complete_statements now i p) s w ((complete-Keeps now i p).at s w),
  )

  pub register_managed_track-IsWellFormed :
      (u path : Text) → IsWellFormed (register_managed_track d u path s).1
  unfolding register_managed_track
  register_managed_track-IsWellFormed u path =
      ask-IsWellFormed d _ (transact d (register_statement u path) s)
        (transact-IsWellFormed d (register_statement u path) s w ((register-Keeps u path).at s w))
