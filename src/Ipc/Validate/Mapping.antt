-- ===== src/Ipc/Validate/Mapping.antt =====
-- The protocol's checks against the CHECK constraints of the mapping table.
use offbeat.Db.Mapping.{is_alnum, all_chars, check_mapping}
use offbeat.Ipc.Validate.{
  is_video_char, is_id_char, track_prefix, all_runes, validate_youtube_video_id,
  validate_manual_mapping_track_uri,
}
use offbeat.Youtube.Strings.{has_prefix}
use offbeat.Prelude.{
  ◌==◌, ◌||◌, ◌<◌, refl, [], zero, suc, ◌∷◌, arith, take, true, ◌-◌, drop, text_eq, ◌≡◌, Bool,
  byte_len, length, ℕ, Text,
}

byte_len-ascii :
    (p : ℕ → Bool) (s : Text)
    → ((c : ℕ) → p c ≡ true → c < 128)
    → all_runes p s ≡ true
    → byte_len s ≡ length s
unfolding byte_len
byte_len-ascii p [] h k = refl
byte_len-ascii p (c ∷ s) h k = ground (arith, h c, byte_len-ascii p s h)

has_prefix-take : (p s : Text) → has_prefix p s ≡ true → text_eq (take (length p) s) p ≡ true
unfolding has_prefix text_eq
has_prefix-take [] s h = refl
has_prefix-take (c ∷ p) [] h = cc
has_prefix-take (c ∷ p) (d ∷ s) h = ground (arith, has_prefix-take p s)

all_runes-all_chars :
    (p q : ℕ → Bool) (s : Text)
    → ((c : ℕ) → p c ≡ true → q c ≡ true)
    → all_runes p s ≡ true
    → all_chars q s ≡ true
all_runes-all_chars p q [] h k = refl
all_runes-all_chars p q (c ∷ s) h k = ground (arith, h c, all_runes-all_chars p q s h)

length-drop : (n : ℕ) (s : Text) → length (drop n s) ≡ length s - n
length-drop zero s = omega arith
length-drop (suc n) [] = omega arith
length-drop (suc n) (c ∷ s) = omega (arith, length-drop n s)

abbrev is_mapped_char : ℕ → Bool
is_mapped_char c = is_alnum c || (c == b'_') || (c == b'-')

-- A track URI and a video ID that the protocol accepts for a mapping meet the CHECK constraints of
-- manual_youtube_mappings.
pub check_mapping_of_valid :
    (u v : Text)
    → validate_manual_mapping_track_uri u ≡ true
    → validate_youtube_video_id v ≡ true
    → check_mapping u v ≡ true
unfolding validate_manual_mapping_track_uri validate_youtube_video_id check_mapping
check_mapping_of_valid u v h k =
    let id = drop 14 u in
    let prefix : has_prefix track_prefix u ≡ true = ground arith in
    let runes : all_runes is_id_char id ≡ true = ground arith in
    let video : all_runes is_video_char v ≡ true = ground arith in
    ground (
      arith,
      has_prefix-take track_prefix u prefix,
      length-drop 14 u,
      byte_len-ascii is_id_char id (λ c q. ground arith) runes,
      all_runes-all_chars is_id_char is_alnum id (λ c q. ground arith) runes,
      byte_len-ascii is_video_char v (λ c q. ground arith) video,
      all_runes-all_chars is_video_char is_mapped_char v (λ c q. ground arith) video,
    )
