-- ===== src/Db/Query/Wake.antt =====
-- An UPDATE that makes the one row with an id active: the unique index still holds if no other row
-- of the track is active.
use offbeat.Prelude.{
  ℕ, Text, ◌≡◌, refl, ◌⊎◌, Bool, true, false, some, List, [], ◌∷◌, arith, text_eq, text_eq_iff,
}
use offbeat.Db.Schema.{WorkRow, has_active, one_active}
use offbeat.Db.Query.{first_where, update_where}
use offbeat.Db.Query.Ids.{ascending, update_where-above}

module _ (p : WorkRow → Bool) (f : WorkRow → WorkRow) (i : ℕ)
    (only : (r : WorkRow) → p r ≡ true → r.id ≡ i)
    (same_track : (r : WorkRow) → (f r).track_uri ≡ r.track_uri) where
  has_active-update_wake :
      (u : Text) (xs : List WorkRow) (r : WorkRow)
      → ascending xs ≡ true
      → first_where p xs ≡ some r
      → has_active u (update_where p f xs) ≡ true
      → (has_active u xs ≡ true) ⊎ (text_eq r.track_uri u ≡ true)
  unfolding has_active update_where first_where ascending
  has_active-update_wake u [] r s k h = cc
  has_active-update_wake u (x ∷ xs) r s k h =
      ground (
        arith,
        only x,
        same_track x,
        update_where-above p i only f xs,
        has_active-update_wake u xs r,
      )

  pub one_active-update_wake :
      (xs : List WorkRow) (r : WorkRow)
      → ascending xs ≡ true
      → first_where p xs ≡ some r
      → has_active r.track_uri xs ≡ false
      → one_active xs ≡ true
      → one_active (update_where p f xs) ≡ true
  unfolding has_active one_active update_where first_where ascending
  one_active-update_wake [] r s k n h = refl
  one_active-update_wake (x ∷ xs) r s k n h = ground (
    arith,
    only x,
    same_track x,
    text_eq_iff r.track_uri x.track_uri,
    text_eq_iff x.track_uri r.track_uri,
    update_where-above p i only f xs,
    has_active-update_wake x.track_uri xs r,
    one_active-update_wake xs r,
  )
