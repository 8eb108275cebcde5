-- ===== src/Playlists/Witnesses.antt =====
-- Playlists whose names collide, under ASCII tables and a folding that changes nothing.
use offbeat.Playlists.Basename.{safe_playlist_basename-IsBasename, IsBasename}
use offbeat.Desired.State.{Playlist}
use offbeat.Playlists.{playlist_filenames, safe_playlist_basename, Naming}
use offbeat.Playlists.Distinct.{playlist_filenames-NamesAll, NamesAll, IsNaming, IsPlain}
use offbeat.Prelude.{
  ap, ◌∙◌, sym, length, Text, List, ℕ, zero, suc, codes, [], ◌∷◌, ◌≡◌, refl, All, arith,
}
use offbeat.Youtube.Witnesses.{ascii}

tally : ℕ → Text
tally zero = []
tally (suc i) = b'1' ∷ tally i

tally-IsPlain : (i : ℕ) → All IsPlain (tally i)
unfolding tally
tally-IsPlain zero = tt
tally-IsPlain (suc i) = (refl, tally-IsPlain i)

length-tally : (i : ℕ) → length (tally i) ≡ i
unfolding tally
length-tally zero = refl
length-tally (suc i) = omega (arith, length-tally i)

abbrev naming : Naming
naming = record { collision_key = λ s. s; digest = λ s. codes "0123456789ab"; itoa = tally }

naming-IsNaming : IsNaming naming
naming-IsNaming = record {
  key_append = λ s t h. refl;
  itoa_plain = tally-IsPlain;
  itoa_injective = λ i j e. sym (length-tally i) ∙ (ap length e ∙ length-tally j);
}

abbrev mixes : List Playlist
mixes =
    record { uri = codes "spotify:playlist:1"; name = codes "Mix"; position = 0; entries = [] }
    ∷ record { uri = codes "spotify:playlist:1"; name = codes " Mix. "; position = 1; entries = [] }
    ∷ []

playlist_filenames-NamesAll_example : NamesAll naming mixes (playlist_filenames ascii naming mixes)
playlist_filenames-NamesAll_example = playlist_filenames-NamesAll ascii naming naming-IsNaming mixes

safe_playlist_basename-IsBasename_example :
    IsBasename (safe_playlist_basename ascii (codes " ../a/b. "))
safe_playlist_basename-IsBasename_example =
    safe_playlist_basename-IsBasename ascii (codes " ../a/b. ")
