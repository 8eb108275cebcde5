-- ===== src/Playlists.antt =====
-- internal/app/playlists.go: the names and the contents of playlist files. Texts are valid UTF-8.
-- The folding of golang.org/x/text, SHA-256 and strconv.Itoa are parameters.
pub mod Basename
pub mod Distinct
pub mod Witnesses
use offbeat.Prelude.{
  rune_len, text_lt, zero, ◌+◌, [], length, ltb, none, not, some, suc, text_eq, true, ◌-◌, List,
  Option, codes, false, if◌then◌else◌, is_empty, ◌++◌, ◌==◌, ◌||◌, ◌∷◌, ℕ, Text, Bool,
}
use offbeat.Youtube.Strings.{Unicode, is_one_of}
use offbeat.Desired.State.{Playlist}

abbrev pub max_playlist_basename_bytes : ℕ
max_playlist_basename_bytes = 200

-- truncateUTF8: the longest prefix of whole runes with at most `room` bytes.
unfoldable pub truncate_utf8 : ℕ → Text → Text
truncate_utf8 room [] = []
truncate_utf8 room (c ∷ s) =
    let rest = truncate_utf8 (room - rune_len c) s in if ltb room (rune_len c) then [] else c ∷ rest

-- strings.Trim(s, " .")
abbrev is_trimmed : ℕ → Bool
is_trimmed c = (c == b' ') || (c == b'.')

unfoldable pub trim_left : Text → Text
trim_left [] = []
trim_left (c ∷ s) = let rest = trim_left s in if is_trimmed c then rest else c ∷ s

abbrev trimmed_end : ℕ → Text → Text
trimmed_end c [] = if is_trimmed c then [] else c ∷ []
trimmed_end c (d ∷ s) = c ∷ d ∷ s

unfoldable pub trim_right : Text → Text
trim_right [] = []
trim_right (c ∷ s) = trimmed_end c (trim_right s)

abbrev is_dots : Text → Bool
is_dots s = is_empty s || text_eq s (codes ".") || text_eq s (codes "..")

module _ (U : Unicode) where
  abbrev pub is_separator : ℕ → Bool
  is_separator r = U.is_control r || U.is_space r || (r == b'/') || (r == b'\\')

  -- The loop over the runes: whether a space is pending, and whether anything is written.
  unfoldable pub safe_runes : Bool → Bool → Text → Text
  safe_runes pending started [] = []
  safe_runes pending started (r ∷ s) =
      let skipped = safe_runes started started s in
      let kept = r ∷ safe_runes false true s in
      if is_separator r then skipped else if pending then b' ' ∷ kept else kept

  unfoldable pub safe_playlist_basename : Text → Text
  unfolding safe_runes trim_left trim_right
  safe_playlist_basename name =
      let basename = trim_right (trim_left (safe_runes false false name)) in
      truncate_utf8 max_playlist_basename_bytes
        (if is_dots basename then codes "Playlist" else basename)

-- Code outside the repository: playlistFilenameCollisionKey's folding, the first six bytes of a
-- SHA-256 in hexadecimal, and strconv.Itoa.
pub record Naming : Type 0 where
  pub collision_key : Text → Text
  pub digest : Text → Text
  pub itoa : ℕ → Text

-- A playlist with its index and its basename.
pub record Item : Type 0 where
  pub index : ℕ
  pub uri : Text
  pub basename : Text

unfoldable pub item_before : Item → Item → Bool
item_before a b =
    if not (text_eq a.uri b.uri) then text_lt a.uri b.uri else text_lt a.basename b.basename

-- sort.Slice of the indices
unfoldable pub insert_item : Item → List Item → List Item
insert_item x [] = x ∷ []
insert_item x (y ∷ ys) =
    let rest = y ∷ insert_item x ys in if item_before y x then rest else x ∷ y ∷ ys

unfoldable pub sort_items : List Item → List Item
unfolding insert_item
sort_items [] = []
sort_items (x ∷ xs) = insert_item x (sort_items xs)

-- An index with its name, before ".m3u8".
pub record Assigned : Type 0 where
  pub index : ℕ
  pub name : Text

module _ (N : Naming) where
  abbrev pub reserved_key : Text
  reserved_key = N.collision_key (codes "Liked Songs")

  -- collisionKeys[key]
  unfoldable pub key_count : Text → List Item → ℕ
  key_count k [] = 0
  key_count k (x ∷ xs) = (if text_eq (N.collision_key x.basename) k then 1 else 0) + key_count k xs

  abbrev pub suffixed : Item → Text
  suffixed x = x.basename ++ (codes "~" ++ N.digest x.uri)

  abbrev pub numbered : Item → ℕ → Text
  numbered x attempt = suffixed x ++ (codes "-" ++ N.itoa attempt)

  -- The first candidate.
  unfoldable pub first_candidate : List Item → Item → Text
  first_candidate all x =
      let key = N.collision_key x.basename in
      if ltb 1 (key_count key all) || text_eq key reserved_key then suffixed x else x.basename

  -- The loop over attempts, with fuel for its rounds; `none` means that it ran out.
  unfoldable pub next_free : ℕ → ℕ → Item → List Text → Option Text
  next_free zero attempt x used = none
  next_free (suc fuel) attempt x used =
      let again = next_free fuel (suc attempt) x used in
      if is_one_of (N.collision_key (numbered x attempt)) used
      then again
      else some (numbered x attempt)

  -- At most as many attempts fail as keys are used.
  unfoldable pub choose_name : List Item → List Text → Item → Option Text
  unfolding next_free
  choose_name all used x =
      let candidate = first_candidate all x in
      if is_one_of (N.collision_key candidate) used
      then next_free (length used + 1) 2 x used
      else some candidate

  abbrev add_assigned : Item → Text → Option (List Assigned) → Option (List Assigned)
  add_assigned x name none = none
  add_assigned x name (some rest) = some (record { index = x.index; name = name } ∷ rest)

  abbrev continue_with :
      Item → List Text → (List Text → Option (List Assigned)) → Option Text → Option (List Assigned)
  continue_with x used rest none = none
  continue_with x used rest (some name) = add_assigned x name (rest (N.collision_key name ∷ used))

  -- The loop over the sorted indices.
  unfoldable pub assign_names : List Item → List Text → List Item → Option (List Assigned)
  assign_names all used [] = some []
  assign_names all used (x ∷ xs) =
      continue_with x used (λ u. assign_names all u xs) (choose_name all used x)

  unfoldable pub name_at : ℕ → List Assigned → Option Text
  name_at i [] = none
  name_at i (a ∷ as') = if a.index == i then some a.name else name_at i as'

module _ (U : Unicode) (N : Naming) where
  unfoldable pub items_from : ℕ → List Playlist → List Item
  items_from i [] = []
  items_from i (p ∷ ps) =
      record { index = i; uri = p.uri; basename = safe_playlist_basename U p.name }
      ∷ items_from (suc i) ps

  -- playlistFilenames, as the names of the indices, without ".m3u8".
  unfoldable pub playlist_filenames : List Playlist → Option (List Assigned)
  unfolding items_from
  playlist_filenames ps =
      let items = items_from 0 ps in assign_names N items (reserved_key N ∷ []) (sort_items items)
