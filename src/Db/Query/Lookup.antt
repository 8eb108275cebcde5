-- ===== src/Db/Query/Lookup.antt =====
-- What the SELECTs find.
use offbeat.Prelude.{
  Option-cases, inr, inl, Bool-cases, All-map, length, All, ℕ, ◌<◌, Text, ◌≡◌, refl, Bool, true,
  false, none, some, List, [], ◌∷◌, ◌&&◌, ◌||◌, arith, text_eq, is_empty,
}
use offbeat.Desired.State.{Track}
use offbeat.Db.Schema.{pending, running, WorkRow, state_eq, has_active}
use offbeat.Db.Query.{
  last_where, count_where, select_where, update_where, has_track, first_where, exists_where,
  with_id,
}
use offbeat.Db.Query.Ids.{above, ascending}

module _ (p : WorkRow → Bool) where
  -- The row found satisfies the condition.
  pub first_where-holds : (xs : List WorkRow) (r : WorkRow) → first_where p xs ≡ some r → p r ≡ true
  unfolding first_where
  first_where-holds [] r h = cc
  first_where-holds (x ∷ xs) r h = ground (arith, first_where-holds xs r)

  pub exists_where-first : (xs : List WorkRow) → exists_where p xs ≡ false → first_where p xs ≡ none
  unfolding first_where exists_where
  exists_where-first [] h = refl
  exists_where-first (x ∷ xs) h = ground (arith, exists_where-first xs)

  pub first_where-above :
      (n : ℕ) (xs : List WorkRow) (r : WorkRow)
      → above n xs ≡ true
      → first_where p xs ≡ some r
      → n < r.id
  unfolding first_where above
  first_where-above n [] r h k = cc
  first_where-above n (x ∷ xs) r h k = ground (arith, first_where-above n xs r)

abbrev pub on_track : Text → WorkRow → Bool
on_track u r = text_eq r.track_uri u && (state_eq r.state pending || state_eq r.state running)

pub exists_where-on_track :
    (u : Text) (xs : List WorkRow) → exists_where (on_track u) xs ≡ has_active u xs
unfolding exists_where has_active
exists_where-on_track u [] = refl
exists_where-on_track u (x ∷ xs) = ground (arith, exists_where-on_track u xs)

pub first_where-on_track :
    (u : Text) (xs : List WorkRow) → first_where (on_track u) xs ≡ none → has_active u xs ≡ false
unfolding first_where has_active
first_where-on_track u [] h = refl
first_where-on_track u (x ∷ xs) h = ground (arith, first_where-on_track u xs)

-- A row is the only one with its id.
pub first_where_unique :
    (p : WorkRow → Bool) (i : ℕ) (xs : List WorkRow) (q r : WorkRow)
    → ascending xs ≡ true
    → first_where (with_id i) xs ≡ some r
    → first_where p xs ≡ some q
    → q.id ≡ i
    → q ≡ r
unfolding first_where ascending
first_where_unique p i [] q r s h k e = cc
first_where_unique p i (x ∷ xs) q r s h k e =
    ground (arith, first_where-above p x.id xs q, first_where_unique p i xs q r)

-- A desired track has a URI, if every track of the table has one.
pub has_track-named :
    (u : Text) (ts : List Track)
    → has_track [] ts ≡ false
    → has_track u ts ≡ true
    → is_empty u ≡ false
has_track-named [] ts h k = cc
has_track-named (c ∷ u) ts h k = refl

module _ (p q : WorkRow → Bool) (f : WorkRow → WorkRow) where
  -- A condition that an UPDATE cannot change.
  pub first_where-update_other :
      ((r : WorkRow) → p r ≡ true → (q r ≡ false) × (q (f r) ≡ false))
      → (xs : List WorkRow) → first_where q (update_where p f xs) ≡ first_where q xs
  unfolding first_where update_where
  first_where-update_other apart [] = refl
  first_where-update_other apart (x ∷ xs) =
      ground (arith, apart x, first_where-update_other apart xs)

module _ (p : WorkRow → Bool) where
  above-select_where :
      (n : ℕ) (xs : List WorkRow) → above n xs ≡ true → above n (select_where p xs) ≡ true
  unfolding select_where above
  above-select_where n [] h = refl
  above-select_where n (x ∷ xs) h = ground (arith, above-select_where n xs)

  pub ascending-select_where :
      (xs : List WorkRow) → ascending xs ≡ true → ascending (select_where p xs) ≡ true
  unfolding select_where ascending
  ascending-select_where [] h = refl
  ascending-select_where (x ∷ xs) h =
      ground (arith, above-select_where x.id xs, ascending-select_where xs)

  pub length-select_where : (xs : List WorkRow) → length (select_where p xs) ≡ count_where p xs
  unfolding select_where count_where
  length-select_where [] = refl
  length-select_where (x ∷ xs) = ground (arith, length-select_where xs)

  abbrev pub FoundIn : List WorkRow → WorkRow → Type 0
  FoundIn xs r = first_where (λ x. with_id r.id x && p x) xs ≡ some r

  FoundIn-cons :
      (x : WorkRow) (xs : List WorkRow)
      → above x.id xs ≡ true
      → (r : WorkRow) → FoundIn xs r
      → FoundIn (x ∷ xs) r
  unfolding first_where
  FoundIn-cons x xs h r found =
      ground (arith, first_where-above (λ y. with_id r.id y && p y) x.id xs r)

  FoundIn-self : (x : WorkRow) (xs : List WorkRow) → p x ≡ true → FoundIn (x ∷ xs) x
  unfolding first_where
  FoundIn-self x xs e = ground arith

  -- Each row selected is what a SELECT by its id and the same condition finds.
  pub select_where-found :
      (xs : List WorkRow) → ascending xs ≡ true → All (FoundIn xs) (select_where p xs)
  unfolding select_where ascending
  select_where-found [] h = tt
  select_where-found (x ∷ xs) h =
      let later =
        All-map (FoundIn-cons x xs (ground arith)) (select_where p xs)
          (select_where-found xs (ground arith)) in
      elim (Bool-cases (p x)) [ inl e ↦ rw e (FoundIn-self x xs e, later) | inr e ↦ rw e later ]

module _ (p : WorkRow → Bool) where
  pub last_where-holds : (xs : List WorkRow) (r : WorkRow) → last_where p xs ≡ some r → p r ≡ true
  unfolding last_where
  last_where-holds [] r h = cc
  last_where-holds (x ∷ xs) r h = elim (Option-cases (last_where p xs)) [
    | inl e ↦ ground arith
    | inr (q, e) ↦ ground (arith, last_where-holds xs q)
  ]

  last_where-above :
      (n : ℕ) (xs : List WorkRow) (r : WorkRow)
      → above n xs ≡ true
      → last_where p xs ≡ some r
      → n < r.id
  unfolding last_where above
  last_where-above n [] r h k = cc
  last_where-above n (x ∷ xs) r h k = elim (Option-cases (last_where p xs)) [
    | inl e ↦ ground arith
    | inr (q, e) ↦ ground (arith, last_where-above n xs q)
  ]

  -- The last row that a condition selects is the row with its id.
  pub last_where-first :
      (q : WorkRow → Bool) (xs : List WorkRow) (r : WorkRow)
      → ((x : WorkRow) → q x ≡ true → x.id ≡ r.id)
      → q r ≡ true
      → ascending xs ≡ true
      → last_where p xs ≡ some r
      → first_where q xs ≡ some r
  unfolding last_where first_where ascending
  last_where-first q [] r only h s k = cc
  last_where-first q (x ∷ xs) r only h s k = elim (Option-cases (last_where p xs)) [
    | inl e ↦ ground arith
    | inr (y, e) ↦ ground (arith, only x, last_where-above x.id xs y, last_where-first q xs r only)
  ]

  -- The first row that a condition selects is the row with its id.
  pub first_where-first :
      (q : WorkRow → Bool) (xs : List WorkRow) (r : WorkRow)
      → ((x : WorkRow) → q x ≡ true → x.id ≡ r.id)
      → q r ≡ true
      → ascending xs ≡ true
      → first_where p xs ≡ some r
      → first_where q xs ≡ some r
  unfolding first_where ascending
  first_where-first q [] r only h s k = cc
  first_where-first q (x ∷ xs) r only h s k =
      ground (arith, only x, first_where-above p x.id xs r, first_where-first q xs r only)
