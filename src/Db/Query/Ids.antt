-- ===== src/Db/Query/Ids.antt =====
-- Row ids: they ascend in the table and stay below the next one, so an UPDATE by id meets one row.
use offbeat.Prelude.{
  ℕ, suc, ◌<◌, ◌≤◌, ◌≡◌, refl, Bool, true, some, List, [], ◌∷◌, ◌++◌, ◌&&◌, arith, ltb,
}
use offbeat.Db.Schema.{WorkRow}
use offbeat.Db.Query.{first_where, update_where, count_where}

-- Every id is above `n`.
unfoldable pub above : ℕ → List WorkRow → Bool
above n [] = true
above n (r ∷ rs) = ltb n r.id && above n rs

unfoldable pub ascending : List WorkRow → Bool
ascending [] = true
ascending (r ∷ rs) = above r.id rs && ascending rs

-- Every id is below `n`.
unfoldable pub below : ℕ → List WorkRow → Bool
below n [] = true
below n (r ∷ rs) = ltb r.id n && below n rs

pub above-append :
    (n : ℕ) (xs : List WorkRow) (r : WorkRow)
    → above n xs ≡ true
    → n < r.id
    → above n (xs ++ r ∷ []) ≡ true
unfolding above
above-append n [] r h k = ground arith
above-append n (x ∷ xs) r h k = ground (arith, above-append n xs r)

pub ascending-append :
    (xs : List WorkRow) (r : WorkRow)
    → ascending xs ≡ true
    → below r.id xs ≡ true
    → ascending (xs ++ r ∷ []) ≡ true
unfolding ascending below above
ascending-append [] r h k = refl
ascending-append (x ∷ xs) r h k = ground (arith, ascending-append xs r, above-append x.id xs r)

below-suc : (n : ℕ) (xs : List WorkRow) → below n xs ≡ true → below (suc n) xs ≡ true
unfolding below
below-suc n [] h = refl
below-suc n (x ∷ xs) h = ground (arith, below-suc n xs)

pub below-append :
    (xs : List WorkRow) (r : WorkRow)
    → below r.id xs ≡ true
    → below (suc r.id) (xs ++ r ∷ []) ≡ true
unfolding below
below-append [] r h = ground arith
below-append (x ∷ xs) r h = ground (arith, below-append xs r)

module _ (p : WorkRow → Bool) (f : WorkRow → WorkRow)
    (same_id : (r : WorkRow) → (f r).id ≡ r.id) where
  pub above-update : (n : ℕ) (xs : List WorkRow) → above n (update_where p f xs) ≡ above n xs
  unfolding above update_where
  above-update n [] = refl
  above-update n (x ∷ xs) = ground (arith, same_id x, above-update n xs)

  pub ascending-update : (xs : List WorkRow) → ascending (update_where p f xs) ≡ ascending xs
  unfolding ascending update_where
  ascending-update [] = refl
  ascending-update (x ∷ xs) = ground (arith, same_id x, above-update x.id xs, ascending-update xs)

  pub below-update : (n : ℕ) (xs : List WorkRow) → below n (update_where p f xs) ≡ below n xs
  unfolding below update_where
  below-update n [] = refl
  below-update n (x ∷ xs) = ground (arith, same_id x, below-update n xs)

above_trans : (m n : ℕ) (xs : List WorkRow) → m ≤ n → above n xs ≡ true → above m xs ≡ true
unfolding above
above_trans m n [] h k = refl
above_trans m n (x ∷ xs) h k = ground (arith, above_trans m n xs)

-- A condition that holds of the id `i` only.
module _ (p : WorkRow → Bool) (i : ℕ) (only : (r : WorkRow) → p r ≡ true → r.id ≡ i) where
  pub count_where-above : (xs : List WorkRow) → above i xs ≡ true → count_where p xs ≡ 0
  unfolding above count_where
  count_where-above [] h = refl
  count_where-above (x ∷ xs) h = ground (arith, only x, count_where-above xs)

  pub update_where-above :
      (f : WorkRow → WorkRow) (xs : List WorkRow) → above i xs ≡ true → update_where p f xs ≡ xs
  unfolding above update_where
  update_where-above f [] h = refl
  update_where-above f (x ∷ xs) h = ground (arith, only x, update_where-above f xs)

  -- The UPDATE meets one row if there is one.
  pub count_where-one :
      (xs : List WorkRow) (r : WorkRow)
      → ascending xs ≡ true
      → first_where p xs ≡ some r
      → count_where p xs ≡ 1
  unfolding ascending first_where count_where
  count_where-one [] r h k = cc
  count_where-one (x ∷ xs) r h k =
      ground (arith, only x, count_where-above xs, count_where-one xs r)
