-- ===== src/Adapter/Candidate/Yields.antt =====
-- internal/app/adapter.go: what a chain of fallible steps yields, and when two tracks are equal.
use offbeat.Desired.State.{NamedUri, Track}
use offbeat.Adapter.Candidate.{artists_eq, named_eq, number_eq, track_eq}
use offbeat.Adapter.Json.{only_if, and_then}
use offbeat.Prelude.{
  ==_iff, text_eq_iff, ap, Bool, Option, List, ℕ, true, false, none, some, [], ◌∷◌, refl, ◌≡◌,
  if◌then◌else◌, arith,
}

-- The result, if there is one, has the property.
pub data Yields {A : Type 0} (P : A → Type 0) : Option A → Type 0 where
  yields_none : Yields P none
  yields : {a : A} → P a → Yields P (some a)

pub Yields-and_then :
    {A B : Type 0} {P : B → Type 0} (Q : A → Type 0) (o : Option A) (f : A → Option B)
    → Yields Q o
    → ((a : A) → Q a → Yields P (f a))
    → Yields P (and_then o f)
unfolding and_then
Yields-and_then Q none f h k = yields_none
Yields-and_then Q (some a) f (yields h) k = k a h

pub Yields-any :
    {A B : Type 0} {P : B → Type 0} (o : Option A) (f : A → Option B)
    → ((a : A) → Yields P (f a))
    → Yields P (and_then o f)
unfolding and_then
Yields-any none f k = yields_none
Yields-any (some a) f k = k a

pub Yields-only_if :
    {A : Type 0} {P : A → Type 0} (b : Bool) (r : Option A)
    → (b ≡ true → Yields P r)
    → Yields P (only_if b r)
unfolding only_if
Yields-only_if true r k = k refl
Yields-only_if false r k = yields_none

pub Yields-if :
    {A : Type 0} {P : A → Type 0} (b : Bool) (x y : Option A)
    → Yields P x
    → Yields P y
    → Yields P (if b then x else y)
Yields-if true x y h k = h
Yields-if false x y h k = k

named_eq_sound : (a b : NamedUri) → named_eq a b ≡ true → a ≡ b
unfolding named_eq
named_eq_sound a b h = ground (arith, (text_eq_iff a.uri b.uri).0, (text_eq_iff a.name b.name).0)

artists_eq_sound : (a b : List NamedUri) → artists_eq a b ≡ true → a ≡ b
unfolding artists_eq
artists_eq_sound [] [] h = refl
artists_eq_sound [] (y ∷ b) h = cc
artists_eq_sound (x ∷ a) [] h = cc
artists_eq_sound (x ∷ a) (y ∷ b) h = ground (arith, named_eq_sound x y, artists_eq_sound a b)

number_eq_sound : (a b : Option ℕ) → number_eq a b ≡ true → a ≡ b
unfolding number_eq
number_eq_sound none none h = refl
number_eq_sound none (some n) h = cc
number_eq_sound (some m) none h = cc
number_eq_sound (some m) (some n) h = ap some ((==_iff m n).0 h)

pub track_eq_sound : (a b : Track) → track_eq a b ≡ true → a ≡ b
unfolding track_eq
track_eq_sound a b h = ground (
  arith,
  (text_eq_iff a.uri b.uri).0,
  (text_eq_iff a.name b.name).0,
  artists_eq_sound a.artists b.artists,
  named_eq_sound a.album b.album,
  (text_eq_iff a.album_artist b.album_artist).0,
  number_eq_sound a.track_number b.track_number,
  number_eq_sound a.disc_number b.disc_number,
  (text_eq_iff a.release_date b.release_date).0,
  (text_eq_iff a.artwork_url b.artwork_url).0,
)
