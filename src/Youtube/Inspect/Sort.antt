-- ===== src/Youtube/Inspect/Sort.antt =====
-- The order of the ranked results: a permutation, the best score first.
use offbeat.Prelude.{
  inr, arith, inl, All-map, Bool-cases, [], false, true, All, ◌∷◌, ◌≡◌, ◌≤◌, List, ℕ,
}
use mathlib.Core.List.{Perm}
use mathlib.Core.List.Perm
use offbeat.Youtube.Inspect.{insert_ranked, ranks_before, Ranked, sort_ranked}

abbrev pub AtMost : ℕ → List Ranked → Type 0
AtMost n rs = All (λ r. r.score ≤ n) rs

abbrev pub IsDescending : List Ranked → Type 0
IsDescending [] = Unit
IsDescending (r ∷ rs) = AtMost r.score rs × IsDescending rs

ranks_before-le : (a b : Ranked) → ranks_before a b ≡ true → b.score ≤ a.score
unfolding ranks_before
ranks_before-le a b h = ground arith

not_before-le : (a b : Ranked) → ranks_before a b ≡ false → a.score ≤ b.score
unfolding ranks_before
not_before-le a b h = ground arith

AtMost-insert :
    (n : ℕ) (r : Ranked) (rs : List Ranked)
    → r.score ≤ n
    → AtMost n rs
    → AtMost n (insert_ranked r rs)
unfolding insert_ranked
AtMost-insert n r [] h k = (h, tt)
AtMost-insert n r (x ∷ xs) h k = elim (Bool-cases (ranks_before x r)) [
  | inl e ↦ rw e (k.0, AtMost-insert n r xs h k.1)
  | inr e ↦ rw e (h, k)
]

AtMost-trans : (m n : ℕ) (rs : List Ranked) → m ≤ n → AtMost m rs → AtMost n rs
AtMost-trans m n rs h = All-map (λ r k. omega arith) rs

insert-IsDescending :
    (r : Ranked) (rs : List Ranked) → IsDescending rs → IsDescending (insert_ranked r rs)
unfolding insert_ranked
insert-IsDescending r [] h = (tt, tt)
insert-IsDescending r (x ∷ xs) h = elim (Bool-cases (ranks_before x r)) [
  | inl e ↦
      rw e (AtMost-insert x.score r xs (ranks_before-le x r e) h.0, insert-IsDescending r xs h.1)
  | inr e ↦ let le = not_before-le x r e in rw e ((le, AtMost-trans x.score r.score xs le h.0), h)
]

-- The sorted list has the best score first, and so on.
pub sort_ranked-IsDescending : (rs : List Ranked) → IsDescending (sort_ranked rs)
unfolding sort_ranked
sort_ranked-IsDescending [] = tt
sort_ranked-IsDescending (r ∷ rs) =
    insert-IsDescending r (sort_ranked rs) (sort_ranked-IsDescending rs)

insert_ranked-perm : (r : Ranked) (rs : List Ranked) → Perm (insert_ranked r rs) (r ∷ rs)
unfolding insert_ranked
insert_ranked-perm r [] = Perm.refl (r ∷ [])
insert_ranked-perm r (x ∷ xs) = elim (Bool-cases (ranks_before x r)) [
  | inl e ↦ rw e (Perm.trans (Perm.cons x (insert_ranked-perm r xs)) (Perm.swap r x xs))
  | inr e ↦ rw e (Perm.refl (r ∷ x ∷ xs))
]

-- Sorting loses and invents nothing.
pub sort_ranked-perm : (rs : List Ranked) → Perm (sort_ranked rs) rs
unfolding sort_ranked
sort_ranked-perm [] = Perm.refl []
sort_ranked-perm (r ∷ rs) =
    Perm.trans (insert_ranked-perm r (sort_ranked rs)) (Perm.cons r (sort_ranked-perm rs))
