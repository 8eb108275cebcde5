-- ===== src/Db/Query/Active.antt =====
-- The constraints of acquisition_work under INSERT and UPDATE: the unique index on active rows and
-- the CHECKs.
use offbeat.Prelude.{
  Text, ◌≡◌, refl, Bool, true, false, none, List, [], ◌∷◌, ◌++◌, ◌&&◌, ◌||◌, arith, text_eq,
  text_eq_iff,
}
use offbeat.Db.Schema.{WorkRow, is_active, check_row, has_active, one_active, all_checked}
use offbeat.Db.Query.{first_where, update_where}

pub has_active-append :
    (u : Text) (xs : List WorkRow) (r : WorkRow)
    → has_active u (xs ++ r ∷ [])
      ≡ (has_active u xs || (is_active r.state && text_eq r.track_uri u))
unfolding has_active
has_active-append u [] r = ground arith
has_active-append u (x ∷ xs) r = ground (arith, has_active-append u xs r)

pub one_active-append :
    (xs : List WorkRow) (r : WorkRow)
    → one_active xs ≡ true
    → has_active r.track_uri xs ≡ false
    → one_active (xs ++ r ∷ []) ≡ true
unfolding one_active has_active
one_active-append [] r h k = ground arith
one_active-append (x ∷ xs) r h k = ground (
  arith,
  one_active-append xs r,
  has_active-append x.track_uri xs r,
  text_eq_iff x.track_uri r.track_uri,
  text_eq_iff r.track_uri x.track_uri,
)

pub all_checked-append :
    (xs : List WorkRow) (r : WorkRow)
    → all_checked xs ≡ true
    → check_row r ≡ true
    → all_checked (xs ++ r ∷ []) ≡ true
unfolding all_checked
all_checked-append [] r h k = ground arith
all_checked-append (x ∷ xs) r h k = ground (arith, all_checked-append xs r)

module _ (p : WorkRow → Bool) (f : WorkRow → WorkRow) where
  pub all_checked-update :
      (xs : List WorkRow)
      → ((r : WorkRow) → p r ≡ true → check_row r ≡ true → check_row (f r) ≡ true)
      → all_checked xs ≡ true
      → all_checked (update_where p f xs) ≡ true
  unfolding all_checked update_where
  all_checked-update [] k h = refl
  all_checked-update (x ∷ xs) k h = ground (arith, k x, all_checked-update xs k)

module _ (p : WorkRow → Bool) (f : WorkRow → WorkRow)
    (same_track : (r : WorkRow) → (f r).track_uri ≡ r.track_uri) where
  -- An update that makes no row active.
  module _
      (calm : (r : WorkRow)
        → p r ≡ true
        → is_active (f r).state ≡ true
        → is_active r.state ≡ true) where
    has_active-update_calm :
        (u : Text) (xs : List WorkRow)
        → has_active u (update_where p f xs) ≡ true
        → has_active u xs ≡ true
    unfolding has_active update_where
    has_active-update_calm u [] h = h
    has_active-update_calm u (x ∷ xs) h =
        ground (arith, calm x, same_track x, has_active-update_calm u xs)

    pub one_active-update_calm :
        (xs : List WorkRow) → one_active xs ≡ true → one_active (update_where p f xs) ≡ true
    unfolding one_active update_where
    one_active-update_calm [] h = refl
    one_active-update_calm (x ∷ xs) h = ground (
      arith,
      calm x,
      same_track x,
      one_active-update_calm xs,
      has_active-update_calm x.track_uri xs,
    )

  update_where-none : (xs : List WorkRow) → first_where p xs ≡ none → update_where p f xs ≡ xs
  unfolding first_where update_where
  update_where-none [] h = refl
  update_where-none (x ∷ xs) h = ground (arith, update_where-none xs)
