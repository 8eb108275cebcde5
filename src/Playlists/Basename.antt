-- ===== src/Playlists/Basename.antt =====
-- A basename is one component of a path, of bounded length.
use offbeat.Youtube.Strings.{Unicode}
use offbeat.Playlists.{
  max_playlist_basename_bytes, safe_playlist_basename, is_dots, is_separator, is_trimmed,
  trimmed_end, safe_runes, trim_left, trim_right, truncate_utf8,
}
use offbeat.Prelude.{
  text_eq, ◌⊎◌, codes, refl, inr, if◌then◌else◌, inl, rune_len, ◌-◌, arith, ltb, true, Bool,
  Bool-cases, [], false, ◌≤◌, byte_len, ◌∷◌, ◌≡◌, All, ◌==◌, ℕ, Text,
}

abbrev IsSafeRune : ℕ → Type 0
IsSafeRune c = ((c == b'/') ≡ false) × ((c == b'\\') ≡ false)

pub byte_len-truncate_utf8 : (room : ℕ) (s : Text) → byte_len (truncate_utf8 room s) ≤ room
unfolding truncate_utf8 byte_len
byte_len-truncate_utf8 room [] = omega arith
byte_len-truncate_utf8 room (c ∷ s) = ground (arith, byte_len-truncate_utf8 (room - rune_len c) s)

All-truncate_utf8 : (P : ℕ → Type 0) (room : ℕ) (s : Text) → All P s → All P (truncate_utf8 room s)
unfolding truncate_utf8
All-truncate_utf8 P room [] h = tt
All-truncate_utf8 P room (c ∷ s) h = elim (Bool-cases (ltb room (rune_len c))) [
  | inl e ↦ rw e tt
  | inr e ↦ rw e (h.0, All-truncate_utf8 P (room - rune_len c) s h.1)
]

All-trim_left : (P : ℕ → Type 0) (s : Text) → All P s → All P (trim_left s)
unfolding trim_left
All-trim_left P [] h = tt
All-trim_left P (c ∷ s) h = elim (Bool-cases (is_trimmed c)) [
  | inl e ↦ rw e (All-trim_left P s h.1)
  | inr e ↦ rw e h
]

All-trimmed_end : (P : ℕ → Type 0) (c : ℕ) (s : Text) → P c → All P s → All P (trimmed_end c s)
All-trimmed_end P c [] p h = elim (Bool-cases (is_trimmed c)) [
  | inl e ↦ rw e tt
  | inr e ↦ rw e (p, tt)
]
All-trimmed_end P c (d ∷ s) p h = (p, h)

All-trim_right : (P : ℕ → Type 0) (s : Text) → All P s → All P (trim_right s)
unfolding trim_right
All-trim_right P [] h = tt
All-trim_right P (c ∷ s) h = All-trimmed_end P c (trim_right s) h.0 (All-trim_right P s h.1)

safe_runes-All :
    (U : Unicode) (pending started : Bool) (s : Text)
    → All IsSafeRune (safe_runes U pending started s)
unfolding safe_runes
safe_runes-All U pending started [] = tt
safe_runes-All U pending started (r ∷ s) = elim (Bool-cases (is_separator U r)) [
  | inl e ↦ rw e (safe_runes-All U started started s)
  | inr e ↦ rw e (kept pending (ground arith) (safe_runes-All U false true s))
]
  where
    kept :
        (p : Bool)
        → IsSafeRune r
        → All IsSafeRune (safe_runes U false true s)
        → All IsSafeRune
            (if p then b' ' ∷ r ∷ safe_runes U false true s else r ∷ safe_runes U false true s)
    kept true h k = ((refl, refl), (h, k))
    kept false h k = (h, k)

-- No rune of the text is a slash or a backslash.
pub IsSafe : Text → Type 0
IsSafe = All IsSafeRune

-- The text is not empty and begins with neither a space nor a dot.
pub data Begins : Text → Type 0 where
  begins : {c : ℕ} {s : Text} → is_trimmed c ≡ false → Begins (c ∷ s)

Playlist-IsSafe : IsSafe (codes "Playlist")
unfolding IsSafe
Playlist-IsSafe = (
  (refl, refl),
  (
    (refl, refl),
    (
      (refl, refl),
      ((refl, refl), ((refl, refl), ((refl, refl), ((refl, refl), ((refl, refl), tt))))),
    ),
  ),
)

trim_left-Begins : (s : Text) → (trim_left s ≡ []) ⊎ Begins (trim_left s)
unfolding trim_left
trim_left-Begins [] = inl refl
trim_left-Begins (c ∷ s) = elim (Bool-cases (is_trimmed c)) [
  | inl e ↦ rw e (trim_left-Begins s)
  | inr e ↦ rw e (inr (begins e))
]

trimmed_end-Begins : (c : ℕ) (s : Text) → is_trimmed c ≡ false → Begins (trimmed_end c s)
trimmed_end-Begins c [] e = rw e (begins e)
trimmed_end-Begins c (d ∷ s) e = begins e

trim_right-Begins : (s : Text) → Begins s → Begins (trim_right s)
unfolding trim_right
trim_right-Begins [] h = elim h [ ]
trim_right-Begins (c ∷ s) (begins e) = trimmed_end-Begins c (trim_right s) e

room_for : (c : ℕ) → ltb max_playlist_basename_bytes (rune_len c) ≡ false
room_for c = ground arith

truncate_utf8-Begins : (s : Text) → Begins s → Begins (truncate_utf8 max_playlist_basename_bytes s)
unfolding truncate_utf8
truncate_utf8-Begins [] h = elim h [ ]
truncate_utf8-Begins (c ∷ s) (begins e) = rw (room_for c) (begins e)

trimmed-Begins : (s : Text) → let t = trim_right (trim_left s) in (t ≡ []) ⊎ Begins t
unfolding trim_right
trimmed-Begins s = elim (trim_left-Begins s) [
  | inl e ↦ inl (rw e refl)
  | inr h ↦ inr (trim_right-Begins (trim_left s) h)
]

-- What the caller of safePlaylistBasename relies on.
pub record IsBasename (s : Text) : Type 0 where
  pub bounded : byte_len s ≤ max_playlist_basename_bytes
  pub safe : IsSafe s
  pub visible : Begins s

impossible : (s : Text) → s ≡ [] → is_dots s ≡ false → Begins s
unfolding text_eq
impossible [] n e = cc
impossible (c ∷ s) n e = cc

chosen :
    (s : Text)
    → (s ≡ []) ⊎ Begins s
    → IsSafe s
    → IsSafe (if is_dots s then codes "Playlist" else s)
      × Begins (if is_dots s then codes "Playlist" else s)
chosen s b h = elim (Bool-cases (is_dots s)) [
  | inl e ↦ rw e (Playlist-IsSafe, begins refl)
  | inr e ↦ rw e (h, elim b [ inl n ↦ impossible s n e | inr k ↦ k ])
]

-- The basename of every playlist name has at most 200 bytes, holds no slash and no backslash,
-- is not empty and begins with neither a space nor a dot; so it is never "." or "..".
pub safe_playlist_basename-IsBasename :
    (U : Unicode) (name : Text) → IsBasename (safe_playlist_basename U name)
unfolding safe_playlist_basename IsSafe
safe_playlist_basename-IsBasename U name =
    let runes = safe_runes U false false name in
    let safe =
      All-trim_right IsSafeRune _
        (All-trim_left IsSafeRune runes (safe_runes-All U false false name)) in
    let picked = chosen (trim_right (trim_left runes)) (trimmed-Begins runes) safe in
    record {
      bounded = byte_len-truncate_utf8 max_playlist_basename_bytes _;
      safe = All-truncate_utf8 IsSafeRune max_playlist_basename_bytes _ picked.0;
      visible = truncate_utf8-Begins _ picked.1;
    }
