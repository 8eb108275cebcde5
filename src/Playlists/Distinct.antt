-- ===== src/Playlists/Distinct.antt =====
-- The names that the playlists get are distinct once folded, and the search for a free one ends.
use offbeat.Desired.State.{Playlist}
use offbeat.Youtube.Strings.{Unicode, is_one_of}
use offbeat.Playlists.{
  item_before, reserved_key, insert_item, items_from, playlist_filenames, sort_items, add_assigned,
  continue_with, first_candidate, Assigned, assign_names, choose_name, suffixed, numbered, Item,
  next_free, Naming,
}
use mathlib.Core.List.{append_cancel_left, Perm}
use mathlib.Core.List.Perm
use offbeat.Prelude.{
  none, ◌+◌, map, ◌∙◌, refl, sym, text_eq_iff, arith, inr, ◌&&◌, inl, leb, Bool-cases, ◌||◌, ap,
  if◌then◌else◌, ◌==◌, Text, List, Option, some, codes, length, text_eq, All, ◌∷◌, ◌++◌, ◌≡◌, ◌<◌,
  ◌≤◌, ℕ, zero, suc, false, true, [],
}

-- A rune that the suffixes "~<hexadecimal>-<number>" are made of.
abbrev pub IsPlain : ℕ → Type 0
IsPlain c =
    (((c == b'~') || (c == b'-')) || ((leb b'0' c && leb c b'9') || (leb b'a' c && leb c b'f')))
    ≡ true

-- What the code relies on: folding and NFC leave a suffix of plain runes as it is, and
-- strconv.Itoa writes different numbers differently, in plain runes.
pub record IsNaming (N : Naming) : Type 0 where
  pub key_append : (s t : Text) → All IsPlain t → N.collision_key (s ++ t) ≡ N.collision_key s ++ t
  pub itoa_plain : (i : ℕ) → All IsPlain (N.itoa i)
  pub itoa_injective : (i j : ℕ) → N.itoa i ≡ N.itoa j → i ≡ j

erase_text : Text → List Text → List Text
erase_text t [] = []
erase_text t (u ∷ us) = let rest = u ∷ erase_text t us in if text_eq t u then us else rest

length-erase_text :
    (t : Text) (us : List Text) → is_one_of t us ≡ true → suc (length (erase_text t us)) ≡ length us
unfolding erase_text is_one_of
length-erase_text t [] h = cc
length-erase_text t (u ∷ us) h = elim (Bool-cases (text_eq t u)) [
  | inl e ↦ rw e refl
  | inr e ↦ rw e (ap suc (length-erase_text t us (ground (arith, e, h))))
]

is_one_of-erase_text :
    (s t : Text) (us : List Text)
    → text_eq s t ≡ false
    → is_one_of s us ≡ true
    → is_one_of s (erase_text t us) ≡ true
unfolding erase_text is_one_of
is_one_of-erase_text s t [] d h = h
is_one_of-erase_text s t (u ∷ us) d h = elim (Bool-cases (text_eq t u)) [
  | inl e ↦ rw e (ground (arith, (text_eq_iff t u).0 e))
  | inr e ↦ rw e (ground (arith, is_one_of-erase_text s t us d))
]

module _ (N : Naming) where
  -- A name is chosen, and its key is free.
  data IsFree (used : List Text) : Option Text → Type 0 where
    free : {name : Text} → is_one_of (N.collision_key name) used ≡ false → IsFree used (some name)

  -- The folded name of each file is none of the used ones, nor that of an earlier file.
  pub Fresh : List Text → List Assigned → Type 0
  Fresh used [] = Unit
  Fresh used (a ∷ as') =
      (is_one_of (N.collision_key a.name) used ≡ false) × Fresh (N.collision_key a.name ∷ used) as'

  -- All items get a name, in their order.
  data AssignsAll (used : List Text) (items : List Item) : Option (List Assigned) → Type 0 where
    assigns_all :
        {as' : List Assigned}
        → map Assigned.index as' ≡ map Item.index items
        → Fresh used as'
        → AssignsAll used items (some as')

module _ (N : Naming) (H : IsNaming N) where
  numbered_injective :
      (x : Item) (i j : ℕ)
      → N.collision_key (numbered N x i) ≡ N.collision_key (numbered N x j)
      → i ≡ j
  numbered_injective x i j e = H.itoa_injective i j (
      append_cancel_left (codes "-") _ _ (
        append_cancel_left (N.collision_key (suffixed N x)) _ _
          (sym (tail_of i) ∙ (e ∙ tail_of j))))
    where
      tail_of :
          (k : ℕ)
          → N.collision_key (numbered N x k)
            ≡ N.collision_key (suffixed N x) ++ (codes "-" ++ N.itoa k)
      tail_of k = H.key_append (suffixed N x) (codes "-" ++ N.itoa k) (refl, H.itoa_plain k)

  numbered-other :
      (x : Item) (i j : ℕ)
      → suc i ≤ j
      → text_eq (N.collision_key (numbered N x j)) (N.collision_key (numbered N x i)) ≡ false
  numbered-other x i j above =
      elim (Bool-cases
        (text_eq (N.collision_key (numbered N x j)) (N.collision_key (numbered N x i)))) [
          | inl e ↦ ground (arith, above, numbered_injective x j i ((text_eq_iff _ _).0 e))
          | inr e ↦ e
        ]

  next_free-IsFree :
      (fuel attempt : ℕ) (x : Item) (used left : List Text)
      → ((j : ℕ)
          → attempt ≤ j
          → is_one_of (N.collision_key (numbered N x j)) used ≡ true
          → is_one_of (N.collision_key (numbered N x j)) left ≡ true)
      → length left < fuel
      → IsFree N used (next_free N fuel attempt x used)
  unfolding next_free
  next_free-IsFree zero attempt x used left keep enough = ground (arith, enough)
  next_free-IsFree (suc fuel) attempt x used left keep enough =
      elim (Bool-cases (is_one_of (N.collision_key (numbered N x attempt)) used)) [
        | inl e ↦ rw e (
            next_free-IsFree fuel (suc attempt) x used
              (erase_text (N.collision_key (numbered N x attempt)) left)
              (λ j above u.
                is_one_of-erase_text _ _ left (numbered-other x attempt j above)
                  (keep j (omega (arith, above)) u))
              (omega (
                arith,
                enough,
                length-erase_text (N.collision_key (numbered N x attempt)) left
                    (keep attempt (omega arith) e),
              )))
        | inr e ↦ rw e (free e)
      ]

  choose_name-IsFree :
      (all : List Item) (used : List Text) (x : Item) → IsFree N used (choose_name N all used x)
  unfolding choose_name
  choose_name-IsFree all used x =
      elim (Bool-cases (is_one_of (N.collision_key (first_candidate N all x)) used)) [
        | inl e ↦
            rw e (next_free-IsFree (length used + 1) 2 x used used (λ j above u. u) (omega arith))
        | inr e ↦ rw e (free e)
      ]

  add_assigned-names :
      (used : List Text) (x : Item) (xs : List Item) (name : Text) (r : Option (List Assigned))
      → is_one_of (N.collision_key name) used ≡ false
      → AssignsAll N (N.collision_key name ∷ used) xs r
      → AssignsAll N used (x ∷ xs) (add_assigned N x name r)
  unfolding Fresh
  add_assigned-names used x xs name none f h = elim h [ ]
  add_assigned-names used x xs name (some as') f (assigns_all e g) = assigns_all (rw e refl) (f, g)

  continue_with-names :
      (used : List Text) (x : Item) (xs : List Item) (rest : List Text → Option (List Assigned))
      (o : Option Text)
      → IsFree N used o
      → ((u : List Text) → AssignsAll N u xs (rest u))
      → AssignsAll N used (x ∷ xs) (continue_with N x used rest o)
  continue_with-names used x xs rest none h k = elim h [ ]
  continue_with-names used x xs rest (some name) (free f) k =
      add_assigned-names used x xs name _ f (k (N.collision_key name ∷ used))

  assign_names-all :
      (all xs : List Item) (used : List Text) → AssignsAll N used xs (assign_names N all used xs)
  unfolding assign_names Fresh
  assign_names-all all [] used = assigns_all refl tt
  assign_names-all all (x ∷ xs) used =
      continue_with-names used x xs _ (choose_name N all used x) (choose_name-IsFree all used x)
        (assign_names-all all xs)

insert_item-perm : (x : Item) (xs : List Item) → Perm (insert_item x xs) (x ∷ xs)
unfolding insert_item
insert_item-perm x [] = Perm.refl (x ∷ [])
insert_item-perm x (y ∷ ys) = elim (Bool-cases (item_before y x)) [
  | inl e ↦ rw e (Perm.trans (Perm.cons y (insert_item-perm x ys)) (Perm.swap x y ys))
  | inr e ↦ rw e (Perm.refl (x ∷ y ∷ ys))
]

sort_items-perm : (xs : List Item) → Perm (sort_items xs) xs
unfolding sort_items
sort_items-perm [] = Perm.refl []
sort_items-perm (x ∷ xs) =
    Perm.trans (insert_item-perm x (sort_items xs)) (Perm.cons x (sort_items-perm xs))

-- The indices of n playlists, from i.
pub indices_from : ℕ → List Playlist → List ℕ
indices_from i [] = []
indices_from i (p ∷ ps) = i ∷ indices_from (suc i) ps

index-items_from :
    (U : Unicode) (N : Naming) (i : ℕ) (ps : List Playlist)
    → map Item.index (items_from U N i ps) ≡ indices_from i ps
unfolding items_from indices_from
index-items_from U N i [] = refl
index-items_from U N i (p ∷ ps) = rw (index-items_from U N (suc i) ps) refl

-- Every playlist has a file name, no two of which fold to the same text, nor to that of
-- "Liked Songs".
pub data NamesAll (N : Naming) (ps : List Playlist) : Option (List Assigned) → Type 0 where
  names_all :
      {as' : List Assigned}
      → Perm (map Assigned.index as') (indices_from 0 ps)
      → Fresh N (reserved_key N ∷ []) as'
      → NamesAll N ps (some as')

AssignsAll-NamesAll :
    (N : Naming) (ps : List Playlist) (items : List Item) (o : Option (List Assigned))
    → AssignsAll N (reserved_key N ∷ []) items o
    → Perm (map Item.index items) (indices_from 0 ps)
    → NamesAll N ps o
AssignsAll-NamesAll N ps items none h p = elim h [ ]
AssignsAll-NamesAll N ps items (some as') (assigns_all e f) p = names_all (rw e p) f

items-perm :
    (U : Unicode) (N : Naming) (ps : List Playlist)
    → Perm (map Item.index (sort_items (items_from U N 0 ps))) (indices_from 0 ps)
items-perm U N ps =
    rw (sym (index-items_from U N 0 ps))
      (Perm.map Item.index (sort_items-perm (items_from U N 0 ps)))

-- For every folding, digest and number printer that leave a plain suffix as it is, the search
-- for names ends: every playlist gets exactly one file name, no two of them fold to the same
-- text, and none folds to the text of "Liked Songs".
pub playlist_filenames-NamesAll :
    (U : Unicode) (N : Naming)
    → IsNaming N
    → (ps : List Playlist) → NamesAll N ps (playlist_filenames U N ps)
unfolding playlist_filenames
playlist_filenames-NamesAll U N H ps =
    AssignsAll-NamesAll N ps _ _
      (assign_names-all N H (items_from U N 0 ps) _ (reserved_key N ∷ [])) (items-perm U N ps)
